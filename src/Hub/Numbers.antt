-- ===== src/Hub/Numbers.antt =====
-- The ids that notifications get.
use Prim.Native.String.append
use Prim.Native.String.{◌++◌ as str_append}
use subportal.Prelude.{ℕ, zero, suc, ◌+◌, ◌<◌, ◌^◌, ◌%◌, String, ◌≡◌, ◌≢◌, sym, ap, ◌∙◌, arith}
use subportal.Prelude.Decimal.{to_decimal-injective}
use subportal.Hub.{Hub, next_notification_id}

-- The hub from which `n` ids have been taken.
abbrev pub numbered : ℕ → Hub → Hub
numbered zero hub = hub
numbered (suc n) hub = (next_notification_id (numbered n hub)).1

tail : String → String
tail String.[] = String.[]
tail (String.◌∷◌ c s) = s

tail_id : (s : String) → tail (str_append "n" s) ≡ s
unfolding tail
tail_id s = ap tail (append.cons "n" String.[] s) ∙ append.nil s

counter-numbered :
    (n : ℕ) (hub : Hub)
    → hub.notification_counter + n < 2 ^ 64
    → (numbered n hub).notification_counter ≡ hub.notification_counter + n
unfolding next_notification_id
counter-numbered zero hub h = omega arith
counter-numbered (suc n) hub h = ground (arith, counter-numbered n hub)

-- Two ids that a hub gives out differ, as long as its counter does not reach 2^64 in between.
next_notification_id_distinct :
    (i k : ℕ) (hub : Hub)
    → i < k
    → hub.notification_counter + suc k < 2 ^ 64
    → (next_notification_id (numbered i hub)).0 ≢ (next_notification_id (numbered k hub)).0
unfolding next_notification_id tail
next_notification_id_distinct i k hub h b e =
    let d =
      to_decimal-injective (((numbered i hub).notification_counter + 1) % 2 ^ 64)
        (((numbered k hub).notification_counter + 1) % 2 ^ 64)
        (sym (tail_id _) ∙ ap tail e ∙ tail_id _) in
    absurd
      (omega (arith, d, counter-numbered i hub (omega arith), counter-numbered k hub (omega arith)))
