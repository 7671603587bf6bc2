-- ===== src/Command/NotifyArgs/Lines.antt =====
-- What `parse_args` makes of a command line.
use Prim.Native.String.{◌++◌ as str_append}
use mathlib.Core.List.{append-nil, append_assoc}
use subportal.Prelude.{
  ℕ, zero, suc, ◌+◌, ◌<◌, String, false, ◌≡◌, refl, sym, ap, ◌∙◌, Option, none, some, List, [], ◌∷◌,
  ◌++◌, length, get_elem?, drop, arith, All,
}
use subportal.Command.NotifyArgs.Kinds.{
  Valued, Standalone, valued_text, standalone_text, kind_valued, kind_standalone, kind_word,
  kind_urgency_eq, kind_icon_eq,
}
use subportal.Command.NotifyArgs.Total.{after, parse_loop_end, parse_loop_step}
use subportal.Prelude.Text.{join, starts_with}
use subportal.Command.NotifyArgs.{
  Parsed, no_args, args, Kind, urgency_flag, icon_flag, valued, ignored, word, urgency_is, icon_is,
  kind, Loop, next, round, finish, parse_loop, parse_args, start,
}

-- A part of a command line: an option in one of its forms, a flag that is accepted and not used, or a
-- word of the notification.
pub data Item : Type 0 where
  urgency_short urgency_long urgency_eq icon_short icon_long icon_eq : (val : String) → Item
  skipped : (flag : Valued) (val : String) → Item
  switch : (flag : Standalone) → Item
  plain : (text : String) → Item

abbrev pub arguments : Item → List String → List String
arguments (urgency_short val) rest = "-u" ∷ val ∷ rest
arguments (urgency_long val) rest = "--urgency" ∷ val ∷ rest
arguments (urgency_eq val) rest = str_append "--urgency=" val ∷ rest
arguments (icon_short val) rest = "-i" ∷ val ∷ rest
arguments (icon_long val) rest = "--icon" ∷ val ∷ rest
arguments (icon_eq val) rest = str_append "--icon=" val ∷ rest
arguments (skipped flag val) rest = valued_text flag ∷ val ∷ rest
arguments (switch flag) rest = standalone_text flag ∷ rest
arguments (plain text) rest = text ∷ rest

abbrev pub command_line : List Item → List String
command_line [] = []
command_line (item ∷ items) = arguments item (command_line items)

-- A word does not begin with a dash; an option's value may.
abbrev IsWord : Item → Type 0
IsWord (plain text) = starts_with text "-" ≡ false
IsWord _ = Unit

abbrev pub urgency_in : Item → Option String
urgency_in (urgency_short val) = some val
urgency_in (urgency_long val) = some val
urgency_in (urgency_eq val) = some val
urgency_in _ = none

abbrev pub icon_in : Item → Option String
icon_in (icon_short val) = some val
icon_in (icon_long val) = some val
icon_in (icon_eq val) = some val
icon_in _ = none

abbrev word_in : Item → List String
word_in (plain text) = text ∷ []
word_in _ = []

abbrev or_before : Option String → Option String → Option String
or_before none before = before
or_before (some val) before = some val

-- Of several values the last one counts.
abbrev pub last : (Item → Option String) → Option String → List Item → Option String
last value before [] = before
last value before (item ∷ items) = last value (or_before (value item) before) items

abbrev pub words : List Item → List String
words [] = []
words (item ∷ items) = word_in item ++ words items

-- The first word is the title, and the others, with spaces between, the body.
abbrev pub notification : List String → Option String → Option String → Parsed
notification [] urgency icon = no_args
notification (title ∷ []) urgency icon =
    args (record { title = title; body = none; urgency = urgency; icon = icon })
notification (title ∷ w ∷ ws) urgency icon =
    args (record { title = title; body = some (join " " (w ∷ ws)); urgency = urgency; icon = icon })

finish_lem :
    (words : List String) (urgency icon : Option String)
    → finish words urgency icon ≡ notification words urgency icon
unfolding finish
finish_lem [] urgency icon = refl
finish_lem (title ∷ []) urgency icon = refl
finish_lem (title ∷ w ∷ ws) urgency icon = refl

suc-add-one : (i : ℕ) → suc i + 1 ≡ suc (i + 1)
suc-add-one i = omega arith

get_elem?-drop :
    (argv : List String) (i : ℕ) (x : String) (rest : List String)
    → drop i argv ≡ x ∷ rest
    → (get_elem? argv i ≡ some x) × (drop (i + 1) argv ≡ rest)
get_elem?-drop [] zero x rest e = absurd (cc)
get_elem?-drop [] (suc i) x rest e = absurd (cc)
get_elem?-drop (y ∷ argv) zero x rest e = (cc, cc)
get_elem?-drop (y ∷ argv) (suc i) x rest e =
    let h = get_elem?-drop argv i x rest e in
    (h.0, ap (λ n. drop n (y ∷ argv)) (suc-add-one i) ∙ h.1)

get_elem?-drop_end : (argv : List String) (i : ℕ) → drop i argv ≡ [] → get_elem? argv i ≡ none
get_elem?-drop_end [] i e = refl
get_elem?-drop_end (y ∷ argv) zero e = absurd (cc)
get_elem?-drop_end (y ∷ argv) (suc i) e = get_elem?-drop_end argv i e

add-two : (i : ℕ) → i + 2 ≡ i + 1 + 1
add-two i = omega arith

get_elem?-drop_two :
    (argv : List String) (i : ℕ) (x val : String) (rest : List String)
    → drop i argv ≡ x ∷ val ∷ rest
    → (get_elem? argv i ≡ some x) × (get_elem? argv (i + 1) ≡ some val) × (drop (i + 2) argv ≡ rest)
get_elem?-drop_two argv i x val rest e =
    let h = get_elem?-drop argv i x (val ∷ rest) e in
    let k = get_elem?-drop argv (i + 1) val rest h.1 in
    (h.0, k.0, ap (λ n. drop n argv) (add-two i) ∙ k.1)

-- What the loop answers from a place on: what it has read, with the rest of the line.
abbrev answer : Loop → List Item → Option Parsed
answer l items = some (
    notification (l.positional ++ words items) (last urgency_in l.urgency items)
      (last icon_in l.icon items))

module _ (fuel : ℕ) (argv : List String) (l : Loop) where
  -- A flag with its value, and an argument that stands alone.
  pair_step :
      (flag val : String) (rest : List String) (k : Kind) (l' : Option String → Loop)
      (o : Option Parsed)
      → drop l.i argv ≡ flag ∷ val ∷ rest
      → kind flag ≡ k
      → round argv l flag k ≡ next (l' (get_elem? argv (l.i + 1)))
      → (drop (l.i + 2) argv ≡ rest → parse_loop fuel argv (l' (some val)) ≡ o)
      → parse_loop (suc fuel) argv l ≡ o
  pair_step flag val rest k l' o e q r goes_on =
      let d = get_elem?-drop_two argv l.i flag val rest e in
      parse_loop_step fuel argv l flag k d.0 q
      ∙ ap (after fuel argv) r
      ∙ ap (λ v. parse_loop fuel argv (l' v)) d.1
      ∙ goes_on d.2

  single_step :
      (arg : String) (rest : List String) (k : Kind) (l' : Loop) (o : Option Parsed)
      → drop l.i argv ≡ arg ∷ rest
      → kind arg ≡ k
      → round argv l arg k ≡ next l'
      → (drop (l.i + 1) argv ≡ rest → parse_loop fuel argv l' ≡ o)
      → parse_loop (suc fuel) argv l ≡ o
  single_step arg rest k l' o e q r goes_on =
      let d = get_elem?-drop argv l.i arg rest e in
      parse_loop_step fuel argv l arg k d.0 q ∙ ap (after fuel argv) r ∙ goes_on d.1

parse_loop-command_line :
    (items : List Item) (fuel : ℕ) (argv : List String) (l : Loop)
    → All IsWord items
    → length (command_line items) < fuel
    → drop l.i argv ≡ command_line items
    → parse_loop fuel argv l ≡ answer l items
unfolding round kind
parse_loop-command_line items zero argv l w h e = absurd (omega (arith, h))
parse_loop-command_line [] (suc fuel) argv l w h e =
    parse_loop_end fuel argv l (get_elem?-drop_end argv l.i e)
    ∙ ap some (
        finish_lem l.positional l.urgency l.icon
        ∙ ap (λ ws. notification ws l.urgency l.icon) (sym (append-nil l.positional)))
parse_loop-command_line (urgency_short val ∷ items) (suc fuel) argv l (w, ws) h e =
    pair_step fuel argv l "-u" val (command_line items) urgency_flag
      (λ v. record l { i = l.i + 2; urgency = v }) _ e refl refl
      (parse_loop-command_line items fuel argv (record l { i = l.i + 2; urgency = some val }) ws
        (omega (arith, h)))
parse_loop-command_line (urgency_long val ∷ items) (suc fuel) argv l (w, ws) h e =
    pair_step fuel argv l "--urgency" val (command_line items) urgency_flag
      (λ v. record l { i = l.i + 2; urgency = v }) _ e refl refl
      (parse_loop-command_line items fuel argv (record l { i = l.i + 2; urgency = some val }) ws
        (omega (arith, h)))
parse_loop-command_line (urgency_eq val ∷ items) (suc fuel) argv l (w, ws) h e =
    single_step fuel argv l (str_append "--urgency=" val) (command_line items) (urgency_is val)
      (record l { i = l.i + 1; urgency = some val }) _ e (kind_urgency_eq val) refl
      (parse_loop-command_line items fuel argv (record l { i = l.i + 1; urgency = some val }) ws
        (omega (arith, h)))
parse_loop-command_line (icon_short val ∷ items) (suc fuel) argv l (w, ws) h e =
    pair_step fuel argv l "-i" val (command_line items) icon_flag
      (λ v. record l { i = l.i + 2; icon = v }) _ e refl refl
      (parse_loop-command_line items fuel argv (record l { i = l.i + 2; icon = some val }) ws
        (omega (arith, h)))
parse_loop-command_line (icon_long val ∷ items) (suc fuel) argv l (w, ws) h e =
    pair_step fuel argv l "--icon" val (command_line items) icon_flag
      (λ v. record l { i = l.i + 2; icon = v }) _ e refl refl
      (parse_loop-command_line items fuel argv (record l { i = l.i + 2; icon = some val }) ws
        (omega (arith, h)))
parse_loop-command_line (icon_eq val ∷ items) (suc fuel) argv l (w, ws) h e =
    single_step fuel argv l (str_append "--icon=" val) (command_line items) (icon_is val)
      (record l { i = l.i + 1; icon = some val }) _ e (kind_icon_eq val) refl
      (parse_loop-command_line items fuel argv (record l { i = l.i + 1; icon = some val }) ws
        (omega (arith, h)))
parse_loop-command_line (skipped flag val ∷ items) (suc fuel) argv l (w, ws) h e =
    pair_step fuel argv l (valued_text flag) val (command_line items) valued
      (λ v. record l { i = l.i + 2 }) _ e (kind_valued flag) refl
      (parse_loop-command_line items fuel argv (record l { i = l.i + 2 }) ws (omega (arith, h)))
parse_loop-command_line (switch flag ∷ items) (suc fuel) argv l (w, ws) h e =
    single_step fuel argv l (standalone_text flag) (command_line items) ignored
      (record l { i = l.i + 1 }) _ e (kind_standalone flag) refl
      (parse_loop-command_line items fuel argv (record l { i = l.i + 1 }) ws (omega (arith, h)))
parse_loop-command_line (plain text ∷ items) (suc fuel) argv l (w, ws) h e =
    single_step fuel argv l text (command_line items) word
      (record l { i = l.i + 1; positional = l.positional ++ (text ∷ []) }) _ e (kind_word text w)
      refl
      (λ d.
        parse_loop-command_line items fuel argv
          (record l { i = l.i + 1; positional = l.positional ++ (text ∷ []) }) ws (omega (arith, h))
          d
        ∙ ap
            (λ all.
              some (notification all (last urgency_in l.urgency items) (last icon_in l.icon items)))
            (append_assoc l.positional (text ∷ []) (words items)))

-- A command line of options, flags and words, in any order and form, where no word begins with a dash,
-- is read as the notification that it describes: the first word is the title and the others, with spaces
-- between, are the body; of several urgencies or icons the last one counts; and it is refused if there is
-- no word.
pub parse_args-command_line :
    (items : List Item)
    → All IsWord items
    → parse_args (command_line items)
      ≡ some (notification (words items) (last urgency_in none items) (last icon_in none items))
unfolding parse_args
parse_args-command_line items w =
    parse_loop-command_line items (suc (length (command_line items))) (command_line items) start w
      (omega arith) refl
