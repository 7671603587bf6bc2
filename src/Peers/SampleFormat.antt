-- ===== src/Peers/SampleFormat.antt =====
-- A small file format that behaves as `FileFormat` asks, for the concrete runs.
use Prim.Native.Char.{Char}
use subportal.Prelude.{
  ℕ, zero, suc, String, map, str_eq, ◌≡◌, refl, Option, none, some, List, [], ◌∷◌, if◌then◌else◌,
  ap, ◌∙◌,
}
use subportal.Peers.Registry.{FileFormat}
use mathlib.Core.Option
use subportal.Peers.Clients.{ClientEntry}
use subportal.Peers.Servers.{ServerEntry}

abbrev put : String → String → String
put String.[] rest = String.◌∷◌ "e" (String.◌∷◌ "e" rest)
put (String.◌∷◌ c s) rest = String.◌∷◌ "x" (String.◌∷◌ c (put s rest))

abbrev join : List String → String
join [] = ""
join (s ∷ l) = put s (join l)

abbrev push : Char → List String → List String
push c [] = []
push c (s ∷ l) = String.◌∷◌ c s ∷ l

abbrev split : String → List String
split String.[] = []
split (String.◌∷◌ a String.[]) = []
split (String.◌∷◌ a (String.◌∷◌ b s)) =
    let rest = split s in if str_eq (String.◌∷◌ a String.[]) "x" then push b rest else "" ∷ rest

split-put : (s rest : String) → split (put s rest) ≡ s ∷ split rest
split-put String.[] rest = refl
split-put (String.◌∷◌ c s) rest = ap (push c) (split-put s rest)

pub split-join : (l : List String) → split (join l) ≡ l
split-join [] = refl
split-join (s ∷ l) = split-put s (join l) ∙ ap (◌∷◌ s) (split-join l)

abbrev unary : ℕ → String
unary zero = ""
unary (suc n) = String.◌∷◌ "x" (unary n)

abbrev size : String → ℕ
size String.[] = zero
size (String.◌∷◌ c s) = suc (size s)

size-unary : (n : ℕ) → size (unary n) ≡ n
size-unary zero = refl
size-unary (suc n) = ap suc (size-unary n)

abbrev caps : List String → List String → List String
caps [] rest = rest
caps (c ∷ cs) rest = "c" ∷ c ∷ caps cs rest

abbrev last : Option ℕ → List String → List String
last none rest = rest
last (some n) rest = "l" ∷ unary n ∷ rest

abbrev write : List ClientEntry → List String
write [] = []
write (e ∷ es) =
    "i"
    ∷ e.endpoint_id
    ∷ "n"
    ∷ e.name
    ∷ "e"
    ∷ unary e.enrolled_at
    ∷ last e.last_seen (caps e.capabilities (write es))

abbrev blank : ClientEntry
blank = record { endpoint_id = ""; name = ""; enrolled_at = 0; last_seen = none; capabilities = [] }

abbrev step : String → String → ClientEntry × List ClientEntry → ClientEntry × List ClientEntry
step tag s (e, es) =
    if str_eq tag "i"
    then (blank, record e { endpoint_id = s } ∷ es)
    else if str_eq tag "n"
    then (record e { name = s }, es)
    else if str_eq tag "e"
    then (record e { enrolled_at = size s }, es)
    else if str_eq tag "l"
    then (record e { last_seen = some (size s) }, es)
    else (record e { capabilities = s ∷ e.capabilities }, es)

abbrev read : List String → ClientEntry × List ClientEntry
read [] = (blank, [])
read (tag ∷ []) = (blank, [])
read (tag ∷ s ∷ l) = step tag s (read l)

read-caps :
    (cs rest : List String) (es : List ClientEntry)
    → read rest ≡ (blank, es)
    → read (caps cs rest) ≡ (record blank { capabilities = cs }, es)
read-caps [] rest es h = h
read-caps (c ∷ cs) rest es h = ap (step "c" c) (read-caps cs rest es h)

read-last :
    (n : Option ℕ) (cs rest : List String) (es : List ClientEntry)
    → read rest ≡ (record blank { capabilities = cs }, es)
    → read (last n rest) ≡ (record blank { last_seen = n; capabilities = cs }, es)
read-last none cs rest es h = h
read-last (some n) cs rest es h =
    ap (step "l" (unary n)) h
    ∙ ap (λ k. (record blank { last_seen = some k; capabilities = cs }, es)) (size-unary n)

pub read-write : (es : List ClientEntry) → read (write es) ≡ (blank, es)
read-write [] = refl
read-write (e ∷ es) =
    ap (λ r. step "i" e.endpoint_id (step "n" e.name (step "e" (unary e.enrolled_at) r)))
      (read-last e.last_seen e.capabilities _ es
        (read-caps e.capabilities (write es) es (read-write es)))
    ∙ ap (λ k. (blank, record e { enrolled_at = k } ∷ es)) (size-unary e.enrolled_at)

abbrev pub sample_format : FileFormat ClientEntry
sample_format = record {
  print = λ es. join (write es);
  parse = λ text. some (read (split text)).1;
  parse-print =
      λ es. ap (λ l. some (read l).1) (split-join (write es)) ∙ ap (λ r. some r.1) (read-write es);
}

abbrev relay_texts : Option String → List String → List String
relay_texts none addrs = "n" ∷ addrs
relay_texts (some url) addrs = "s" ∷ url ∷ addrs

abbrev of_server : ServerEntry → ClientEntry
of_server s = record {
  endpoint_id = s.endpoint_id;
  name = s.name;
  enrolled_at = s.enrolled_at;
  last_seen = none;
  capabilities = relay_texts s.relay_url s.addrs;
}

abbrev relay_of : List String → Option String × List String
relay_of [] = (none, [])
relay_of (tag ∷ []) = (none, [])
relay_of (tag ∷ s ∷ l) = if str_eq tag "s" then (some s, l) else (none, s ∷ l)

abbrev to_server : ClientEntry → ServerEntry
to_server e = record {
  endpoint_id = e.endpoint_id;
  name = e.name;
  enrolled_at = e.enrolled_at;
  addrs = (relay_of e.capabilities).1;
  relay_url = (relay_of e.capabilities).0;
}

relay_of-relay_texts :
    (url : Option String) (addrs : List String) → relay_of (relay_texts url addrs) ≡ (url, addrs)
relay_of-relay_texts none [] = refl
relay_of-relay_texts none (a ∷ addrs) = refl
relay_of-relay_texts (some url) addrs = refl

to_server-of_server : (s : ServerEntry) → to_server (of_server s) ≡ s
to_server-of_server s =
    ap (λ r. record s { relay_url = r.0; addrs = r.1 }) (relay_of-relay_texts s.relay_url s.addrs)

pub to_servers-of_servers : (l : List ServerEntry) → map to_server (map of_server l) ≡ l
to_servers-of_servers [] = refl
to_servers-of_servers (s ∷ l) = λ i. to_server-of_server s i ∷ to_servers-of_servers l i

abbrev pub server_format : FileFormat ServerEntry
server_format = record {
  print = λ l. sample_format.print (map of_server l);
  parse = λ text. Option.map (map to_server) (sample_format.parse text);
  parse-print = λ l.
      ap (Option.map (map to_server)) (sample_format.parse-print (map of_server l))
      ∙ ap some (to_servers-of_servers l);
}
