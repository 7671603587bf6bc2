-- ===== src/Command/NotifyArgs.antt =====
-- `parse_args` of crates/notify-send/src/main.rs. The loop runs on fuel.
pub mod Total
pub mod Kinds
pub mod Lines
use subportal.Prelude.{
  ℕ, zero, suc, ◌+◌, String, Bool, true, false, ◌&&◌, Option, none, some, List, [], ◌∷◌, ◌++◌,
  length, get_elem?, if◌then◌else◌,
}
use subportal.Prelude.Text.{strip_prefix, starts_with, contains, join, is_one_of}

-- `struct Args`
pub record Args : Type 0 where
  pub title : String
  pub body : Option String
  pub urgency : Option String
  pub icon : Option String

-- How the parse ends: it prints and exits, or it returns `None`, or arguments.
pub data Parsed : Type 0 where
  show_help show_version no_args : Parsed
  args : Args → Parsed

-- What an argument is for the `match` of the loop.
pub data Kind : Type 0 where
  help version urgency_flag icon_flag valued ignored word : Kind
  urgency_is icon_is : (val : String) → Kind

-- The last tests: `--key=value`, another flag, or a word.
abbrev kind_of_rest : String → Kind
kind_of_rest other =
    if starts_with other "--" && contains other b'='
    then ignored
    else if starts_with other "-"
    then ignored
    else word

abbrev kind_of_icon : String → Option String → Kind
kind_of_icon other (some val) = icon_is val
kind_of_icon other none = kind_of_rest other

abbrev kind_of_urgency : String → Option String → Kind
kind_of_urgency other (some val) = urgency_is val
kind_of_urgency other none = kind_of_icon other (strip_prefix "--icon=" other)

-- The arms of the `match` with the texts of each.
abbrev arms : List (List String × Kind)
arms =
    ("-h" ∷ "--help" ∷ [], help)
    ∷ ("--version" ∷ [], version)
    ∷ ("-u" ∷ "--urgency" ∷ [], urgency_flag)
    ∷ ("-i" ∷ "--icon" ∷ [], icon_flag)
    ∷ (
      "-t" ∷ "--expire-time" ∷ "-a" ∷ "--app-name" ∷ "-c" ∷ "--category" ∷ "-A" ∷ "--action" ∷ "-r"
          ∷ "--replace-id" ∷ "--hint" ∷ [],
      valued,
    )
    ∷ ("-p" ∷ "--print-id" ∷ "-w" ∷ "--wait" ∷ "-e" ∷ "--transient" ∷ [], ignored)
    ∷ []

unfoldable match_arms : List (List String × Kind) → String → Kind → Kind
match_arms [] arg other = other
match_arms ((texts, k) ∷ rest) arg other =
    if is_one_of arg texts then k else match_arms rest arg other

unfoldable pub kind : String → Kind
unfolding match_arms strip_prefix
kind arg = match_arms arms arg (kind_of_urgency arg (strip_prefix "--urgency=" arg))

-- The variables of the loop.
pub record Loop : Type 0 where
  pub i : ℕ
  pub urgency : Option String
  pub icon : Option String
  pub positional : List String

-- One round: the parse ends, or the loop goes on.
pub data Round : Type 0 where
  stop : Parsed → Round
  next : Loop → Round

unfoldable pub round : List String → Loop → String → Kind → Round
round argv l arg help = stop show_help
round argv l arg version = stop show_version
round argv l arg urgency_flag = next (record l { i = l.i + 2; urgency = get_elem? argv (l.i + 1) })
round argv l arg icon_flag = next (record l { i = l.i + 2; icon = get_elem? argv (l.i + 1) })
round argv l arg valued = next (record l { i = l.i + 2 })
round argv l arg ignored = next (record l { i = l.i + 1 })
round argv l arg (urgency_is val) = next (record l { i = l.i + 1; urgency = some val })
round argv l arg (icon_is val) = next (record l { i = l.i + 1; icon = some val })
round argv l arg word = next (record l { i = l.i + 1; positional = l.positional ++ (arg ∷ []) })

abbrev body_of : List String → Option String
body_of [] = none
body_of (w ∷ ws) = some (join " " (w ∷ ws))

-- Behind the loop.
unfoldable finish : List String → Option String → Option String → Parsed
finish [] urgency icon = no_args
finish (title ∷ words) urgency icon =
    args (record { title = title; body = body_of words; urgency = urgency; icon = icon })

-- `while i < args.len()`; `none` is that the fuel runs out.
unfoldable parse_loop : ℕ → List String → Loop → Option Parsed
unfolding finish round
parse_loop zero argv l = none
parse_loop (suc fuel) argv l = elim (get_elem? argv l.i) [
  | none ↦ some (finish l.positional l.urgency l.icon)
  | some arg ↦ elim (round argv l arg (kind arg)) [
    | stop parsed ↦ some parsed
    | next l' ↦ parse_loop fuel argv l'
  ]
]

abbrev pub start : Loop
start = record { i = 0; urgency = none; icon = none; positional = [] }

unfoldable pub parse_args : List String → Option Parsed
unfolding parse_loop
parse_args argv = parse_loop (suc (length argv)) argv start
