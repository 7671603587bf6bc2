-- ===== src/Android/Runtime/Single.antt =====
-- The core runs one runtime thread at most.
use subportal.Prelude.{
  ℕ, ◌≡◌, refl, Bool, Option, none, some, List, [], ◌∷◌, ◌==◌, Result, true, ok, err, arith,
  Bool-cases, inl, inr, map, if◌then◌else◌,
}
use subportal.Control.{active, idle}
use subportal.Peers.Registry.{RegistryError}
use subportal.Peers.Servers.{ServerEntry, ServerRegistry}
use subportal.Android.Runtime.{
  Core, Runtime, new, start, stop, reconnect, set_focus_active, tick, connection_changed, without,
  in_thread, reloaded,
}

-- What happens to a core. The app starts it only while it is stopped.
pub data Step : Core → Core → Type 0 where
  started :
      (loaded : Result ServerRegistry RegistryError) (core : Core)
      → core.runtime_handle ≡ none
      → Step core (start loaded core)
  stopped : (core : Core) → Step core (stop core)
  reconnected :
      (loaded : Result ServerRegistry RegistryError) (core : Core)
      → Step core (reconnect loaded core)
  focus_set : (is_active : Bool) (core : Core) → Step core (set_focus_active is_active core)
  ticked :
      (id : ℕ) (loaded : Result ServerRegistry RegistryError) (core : Core)
      → Step core (tick id loaded core)
  changed :
      (server : ServerEntry) (connected : Bool) (core : Core)
      → Step core (connection_changed server connected core)

pub data Reach : Core → Type 0 where
  here : Reach new
  next : {core core' : Core} → Reach core → Step core core' → Reach core'

-- No thread runs and there is no handle, or one runs, and all that is held is its.
abbrev Held : List Runtime → Option ℕ → Option ℕ → Option ℕ → Type 0
Held [] shutdown_tx handle focus_tx = (shutdown_tx ≡ none) × (handle ≡ none)
Held (t ∷ []) shutdown_tx handle focus_tx =
    (shutdown_tx ≡ some t.id) × (handle ≡ some t.id) × (focus_tx ≡ some t.id)
Held (t ∷ u ∷ ts) shutdown_tx handle focus_tx = ⊥

abbrev pub IsSingle : Core → Type 0
IsSingle core = Held core.threads core.shutdown_tx core.runtime_handle core.focus_tx

idle-Held :
    (ts : List Runtime) (shutdown_tx handle focus_tx : Option ℕ)
    → Held ts shutdown_tx handle focus_tx
    → handle ≡ none
    → ts ≡ []
idle-Held [] shutdown_tx handle focus_tx s e = refl
idle-Held (t ∷ []) shutdown_tx handle focus_tx s e = absurd (no_handle s.1)
  where
    no_handle : handle ≡ some t.id → ⊥
    no_handle q = cc
idle-Held (t ∷ u ∷ ts) shutdown_tx handle focus_tx s e = absurd s

same_id : (n : ℕ) → (n == n) ≡ true
same_id n = ground arith

without-Held :
    (ts : List Runtime) (shutdown_tx handle focus_tx : Option ℕ)
    → Held ts shutdown_tx handle focus_tx
    → without shutdown_tx ts ≡ []
without-Held [] none handle focus_tx s = refl
without-Held [] (some id) handle focus_tx s = refl
without-Held (t ∷ []) shutdown_tx handle focus_tx s = rw (s.0, same_id t.id) refl
without-Held (t ∷ u ∷ ts) shutdown_tx handle focus_tx s = absurd s

map-Held :
    (f : Runtime → Runtime)
    → ((t : Runtime) → (f t).id ≡ t.id)
    → (ts : List Runtime) (shutdown_tx handle focus_tx : Option ℕ)
    → Held ts shutdown_tx handle focus_tx
    → Held (map f ts) shutdown_tx handle focus_tx
map-Held f e [] shutdown_tx handle focus_tx s = s
map-Held f e (t ∷ []) shutdown_tx handle focus_tx s = rw (e t) s
map-Held f e (t ∷ u ∷ ts) shutdown_tx handle focus_tx s = absurd s

-- A thread's change keeps its number.
in_thread-Held :
    (o : Option ℕ) (f : Runtime → Runtime)
    → ((t : Runtime) → (f t).id ≡ t.id)
    → (ts : List Runtime) (shutdown_tx handle focus_tx : Option ℕ)
    → Held ts shutdown_tx handle focus_tx
    → Held (in_thread o f ts) shutdown_tx handle focus_tx
in_thread-Held none f e ts shutdown_tx handle focus_tx s = s
in_thread-Held (some id) f e ts shutdown_tx handle focus_tx s =
    map-Held (λ t. if t.id == id then f t else t) same ts shutdown_tx handle focus_tx s
  where
    same : (t : Runtime) → (if t.id == id then f t else t).id ≡ t.id
    same t = elim (Bool-cases (t.id == id)) [ inl q ↦ rw q (e t) | inr q ↦ rw q refl ]

stop-IsSingle : (core : Core) → IsSingle core → IsSingle (stop core)
unfolding stop
stop-IsSingle core s =
    rw (without-Held core.threads core.shutdown_tx core.runtime_handle core.focus_tx s) (refl, refl)

start-IsSingle :
    (loaded : Result ServerRegistry RegistryError) (core : Core)
    → core.runtime_handle ≡ none
    → IsSingle core
    → IsSingle (start loaded core)
unfolding start
start-IsSingle loaded core h s =
    rw (idle-Held core.threads core.shutdown_tx core.runtime_handle core.focus_tx s h)
      (refl, refl, refl)

reloaded_id :
    (loaded : Result ServerRegistry RegistryError) (t : Runtime) → (reloaded loaded t).id ≡ t.id
reloaded_id (err e) t = refl
reloaded_id (ok registry) t = refl

Step-IsSingle : {core core' : Core} → Step core core' → IsSingle core → IsSingle core'
unfolding stop reconnect set_focus_active tick connection_changed
Step-IsSingle (started loaded core h) s = start-IsSingle loaded core h s
Step-IsSingle (stopped core) s = stop-IsSingle core s
Step-IsSingle (reconnected loaded core) s =
    start-IsSingle loaded (stop core) refl (stop-IsSingle core s)
Step-IsSingle (focus_set is_active core) s =
    in_thread-Held core.focus_tx (λ t. record t { focus = if is_active then active else idle })
      (λ t. refl) core.threads core.shutdown_tx core.runtime_handle core.focus_tx s
Step-IsSingle (ticked id loaded core) s =
    in_thread-Held (some id) (reloaded loaded) (reloaded_id loaded) core.threads core.shutdown_tx
      core.runtime_handle core.focus_tx s
Step-IsSingle (changed server connected core) s = s

-- A core that is started only while it has no thread's handle, and is stopped, reconnected, told of the
-- focus and of connections and reloaded in any order, has one runtime thread at most: it has none and no
-- handle, or it has one, and its shutdown sender, its handle and its focus sender are that thread's.
pub Reach-IsSingle : {core : Core} → Reach core → IsSingle core
unfolding new
Reach-IsSingle here = (refl, refl)
Reach-IsSingle (next r step) = Step-IsSingle step (Reach-IsSingle r)
