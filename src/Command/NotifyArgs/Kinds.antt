-- ===== src/Command/NotifyArgs/Kinds.antt =====
-- What an argument is for the loop of `parse_args`.
use Prim.Native.Char.{Char}
use Prim.Native.String.{◌++◌ as str_append}
use subportal.Prelude.{
  String, Bool, true, false, not, ◌≡◌, refl, ap, ◌∙◌, none, List, [], ◌∷◌, any, arith, Bool-cases,
  str_eq, inl, inr,
}
use subportal.Prelude.Text.{
  starts_with, strip_prefix, strip_prefix-append, strip_prefix-append_clash, is_some, is_one_of_ne,
}
use subportal.Command.NotifyArgs.{
  Kind, valued, ignored, word, urgency_is, icon_is, arms, kind_of_urgency, match_arms, kind,
}

-- The flags that take a value which is not used, and those that stand alone.
pub data Valued : Type 0 where
  t_short expire_time a_short app_name c_short category a_upper action r_short replace_id hint :
      Valued

pub data Standalone : Type 0 where
  p_short print_id w_short wait e_short transient : Standalone

abbrev pub valued_text : Valued → String
valued_text Valued.t_short = "-t"
valued_text Valued.expire_time = "--expire-time"
valued_text Valued.a_short = "-a"
valued_text Valued.app_name = "--app-name"
valued_text Valued.c_short = "-c"
valued_text Valued.category = "--category"
valued_text Valued.a_upper = "-A"
valued_text Valued.action = "--action"
valued_text Valued.r_short = "-r"
valued_text Valued.replace_id = "--replace-id"
valued_text Valued.hint = "--hint"

abbrev pub standalone_text : Standalone → String
standalone_text Standalone.p_short = "-p"
standalone_text Standalone.print_id = "--print-id"
standalone_text Standalone.w_short = "-w"
standalone_text Standalone.wait = "--wait"
standalone_text Standalone.e_short = "-e"
standalone_text Standalone.transient = "--transient"

pub kind_valued : (flag : Valued) → kind (valued_text flag) ≡ valued
unfolding kind
kind_valued Valued.t_short = refl
kind_valued Valued.expire_time = refl
kind_valued Valued.a_short = refl
kind_valued Valued.app_name = refl
kind_valued Valued.c_short = refl
kind_valued Valued.category = refl
kind_valued Valued.a_upper = refl
kind_valued Valued.action = refl
kind_valued Valued.r_short = refl
kind_valued Valued.replace_id = refl
kind_valued Valued.hint = refl

pub kind_standalone : (flag : Standalone) → kind (standalone_text flag) ≡ ignored
unfolding kind
kind_standalone Standalone.p_short = refl
kind_standalone Standalone.print_id = refl
kind_standalone Standalone.w_short = refl
kind_standalone Standalone.wait = refl
kind_standalone Standalone.e_short = refl
kind_standalone Standalone.transient = refl

-- A text that none of the arms names is read by the tests behind them.
match_arms_other :
    {A : Type 0} (f : String → A) (test : A → Bool) (s : String) (other : Kind)
    (l : List (List String × Kind))
    → test (f s) ≡ true
    → any (λ arm. any (λ x. test (f x)) arm.0) l ≡ false
    → match_arms l s other ≡ other
unfolding match_arms
match_arms_other f test s other [] h k = refl
match_arms_other f test s other ((texts, k') ∷ l) h k =
    ground (arith, is_one_of_ne f test s texts h, match_arms_other f test s other l h)

-- A prefix that begins with the character is none of a text that does not.
no_head :
    (c : Char) (prefix text : String)
    → starts_with text (String.◌∷◌ c String.[]) ≡ false
    → strip_prefix (String.◌∷◌ c prefix) text ≡ none
unfolding strip_prefix
no_head c prefix String.[] h = refl
no_head c prefix (String.◌∷◌ d text) h =
    elim (Bool-cases (str_eq (String.◌∷◌ c String.[]) (String.◌∷◌ d String.[]))) [
      | inl e ↦ absurd (no_both (rw e at h))
      | inr e ↦ rw e refl
    ]
  where
    no_both : true ≡ false → ⊥
    no_both p = cc

rest_word :
    (text : String)
    → starts_with text "-" ≡ false
    → kind_of_urgency text (strip_prefix "--urgency=" text) ≡ word
rest_word text h =
    let with_urgency : strip_prefix "--urgency=" text ≡ none = no_head "-" "-urgency=" text h in
    let with_icon : strip_prefix "--icon=" text ≡ none = no_head "-" "-icon=" text h in
    let with_dashes : strip_prefix "--" text ≡ none = no_head "-" "-" text h in
    rw (with_urgency, with_icon, with_dashes, h) refl

pub kind_word : (text : String) → starts_with text "-" ≡ false → kind text ≡ word
unfolding kind
kind_word text h =
    match_arms_other (λ s. starts_with s "-") not text _ arms (ap not h) refl ∙ rest_word text h

pub kind_urgency_eq : (val : String) → kind (str_append "--urgency=" val) ≡ urgency_is val
unfolding kind
kind_urgency_eq val =
    match_arms_other (strip_prefix "--urgency=") is_some (str_append "--urgency=" val) _ arms
      (rw (strip_prefix-append "--urgency=" val) refl) refl
    ∙ rw (strip_prefix-append "--urgency=" val) refl

pub kind_icon_eq : (val : String) → kind (str_append "--icon=" val) ≡ icon_is val
unfolding kind
kind_icon_eq val =
    match_arms_other (strip_prefix "--icon=") is_some (str_append "--icon=" val) _ arms
      (rw (strip_prefix-append "--icon=" val) refl) refl
    ∙ rw
        (
          strip_prefix-append_clash "--urgency=" "--icon=" val refl,
          strip_prefix-append "--icon=" val,
        )
        refl
