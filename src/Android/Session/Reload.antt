-- ===== src/Android/Session/Reload.antt =====
-- Which servers the client is connected to after a reload.
use mathlib.Core.Path.{subst}
use subportal.Prelude.{
  String, ◌≡◌, refl, Bool, true, false, not, ◌&&◌, Option, none, some, List, [], ◌∷◌, filter, find,
  any, str_eq, eq_iff, if◌then◌else◌, Bool-cases, Option-cases, inl, inr, arith, ◌∙◌, sym, ap,
}
use subportal.Prelude.Table
use subportal.Prelude.Table.{Table, keys}
use subportal.Peers.Servers.{ServerEntry}
use subportal.Android.Session.{has_server, stop_all, start_all, reload_servers}

abbrev is_in : String → List String → Bool
is_in k ks = any (λ j. str_eq j k) ks

get-stop_all :
    (k : String) (ids : List String) (t : Table ServerEntry)
    → Table.get k (stop_all ids t).0 ≡ (if is_in k ids then none else Table.get k t)
unfolding stop_all
get-stop_all k [] t = refl
get-stop_all k (id ∷ ids) t =
    ground (arith, get-stop_all k ids (Table.remove id t), Table.get-remove id k t)

is_in-filter :
    (p : String → Bool) (k : String) (ks : List String)
    → is_in k (filter p ks) ≡ (is_in k ks && p k)
is_in-filter p k [] = refl
is_in-filter p k (j ∷ ks) = elim (Bool-cases (str_eq j k)) [
  | inl e ↦ ground (arith, is_in-filter p k ks, e, ap p ((eq_iff j k).0 e))
  | inr e ↦ ground (arith, is_in-filter p k ks, e)
]

get_absent : (k : String) (t : Table ServerEntry) → is_in k (keys t) ≡ false → Table.get k t ≡ none
unfolding Table.get
get_absent k [] h = refl
get_absent k ((i, s) ∷ t) h = ground (arith, get_absent k t)

-- Ending the tasks of the departed servers leaves those of the others.
get-departed :
    (k : String) (servers : List ServerEntry) (t : Table ServerEntry)
    → (if is_in k (filter (λ id. not (has_server id servers)) (keys t))
        then none
        else Table.get k t)
      ≡ (if has_server k servers then Table.get k t else none)
get-departed k servers t =
    rw (is_in-filter (λ id. not (has_server id servers)) k (keys t))
      (ground (arith, get_absent k t))

-- The server of `id` that a start-up goes to: the first one with that id.
abbrev pub server_of : String → List ServerEntry → Option ServerEntry
server_of id servers = find (λ s. str_eq s.endpoint_id id) servers

abbrev pub or_else : Option ServerEntry → Option ServerEntry → Option ServerEntry
or_else none o = o
or_else (some s) o = some s

or_else-none : (o : Option ServerEntry) → o ≡ or_else o none
or_else-none none = refl
or_else-none (some s) = refl

pub contains_none :
    (k : String) (t : Table ServerEntry) → Table.get k t ≡ none → Table.contains_key k t ≡ false
contains_none k t n = rw (n, Table.contains_key) refl

pub contains_some :
    (k : String) (h : ServerEntry) (t : Table ServerEntry)
    → Table.get k t ≡ some h
    → Table.contains_key k t ≡ true
contains_some k h t p = rw (p, Table.contains_key) refl

get-start_all :
    (k : String) (servers : List ServerEntry) (t : Table ServerEntry)
    → Table.get k (start_all servers t) ≡ or_else (Table.get k t) (server_of k servers)
unfolding start_all
get-start_all k [] t = or_else-none (Table.get k t)
get-start_all k (s ∷ servers) t = elim (Option-cases (Table.get s.endpoint_id t)) [
  | inl n ↦
      subst
        (λ b.
          Table.get k
            (if b then start_all servers t else start_all servers (Table.insert s.endpoint_id s t))
          ≡ or_else (Table.get k t) (server_of k (s ∷ servers)))
        (sym (contains_none s.endpoint_id t n))
        (get-start_all k servers (Table.insert s.endpoint_id s t)
          ∙ ap (λ o. or_else o (server_of k servers)) (Table.get-insert s.endpoint_id k s t)
          ∙ started k s servers t n)
  | inr (h, p) ↦
      subst
        (λ b.
          Table.get k
            (if b then start_all servers t else start_all servers (Table.insert s.endpoint_id s t))
          ≡ or_else (Table.get k t) (server_of k (s ∷ servers)))
        (sym (contains_some s.endpoint_id h t p))
        (get-start_all k servers t ∙ kept k h s servers t p)
]
  where
    started :
        (k : String) (s : ServerEntry) (servers : List ServerEntry) (t : Table ServerEntry)
        → Table.get s.endpoint_id t ≡ none
        → or_else (if str_eq s.endpoint_id k then some s else Table.get k t) (server_of k servers)
          ≡ or_else (Table.get k t) (server_of k (s ∷ servers))
    started k s servers t n = elim (Bool-cases (str_eq s.endpoint_id k)) [
      | inl q ↦ rw (q, sym (ap (λ j. Table.get j t) ((eq_iff s.endpoint_id k).0 q)) ∙ n) refl
      | inr q ↦ rw q refl
    ]

    kept :
        (k : String) (h s : ServerEntry) (servers : List ServerEntry) (t : Table ServerEntry)
        → Table.get s.endpoint_id t ≡ some h
        → or_else (Table.get k t) (server_of k servers)
          ≡ or_else (Table.get k t) (server_of k (s ∷ servers))
    kept k h s servers t p = elim (Bool-cases (str_eq s.endpoint_id k)) [
      | inl q ↦ rw (q, sym (ap (λ j. Table.get j t) ((eq_iff s.endpoint_id k).0 q)) ∙ p) refl
      | inr q ↦ rw q refl
    ]

server_of_absent :
    (id : String) (servers : List ServerEntry)
    → has_server id servers ≡ false
    → server_of id servers ≡ none
server_of_absent id [] h = refl
server_of_absent id (s ∷ servers) h = ground (arith, server_of_absent id servers)

selected :
    (id : String) (servers : List ServerEntry) (o : Option ServerEntry)
    → or_else (if has_server id servers then o else none) (server_of id servers)
      ≡ (if has_server id servers then or_else o (server_of id servers) else none)
selected id servers o = elim (Bool-cases (has_server id servers)) [
  | inl e ↦ rw e refl
  | inr e ↦ rw (e, server_of_absent id servers e) refl
]

-- After a reload a task serves the connection to `id` exactly if `id` is in the registry: the one that
-- did before, and else one for the registry's first entry of `id`.
pub reload_servers_lem :
    (id : String) (servers : List ServerEntry) (active : Table ServerEntry)
    → Table.get id (reload_servers servers active).0 ≡ (
        if has_server id servers
        then or_else (Table.get id active) (server_of id servers)
        else none)
unfolding reload_servers
reload_servers_lem id servers active =
    get-start_all id servers _
    ∙ ap (λ o. or_else o (server_of id servers))
        (get-stop_all id (filter (λ i. not (has_server i servers)) (keys active)) active
          ∙ get-departed id servers active)
    ∙ selected id servers (Table.get id active)
