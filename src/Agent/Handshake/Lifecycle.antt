-- ===== src/Agent/Handshake/Lifecycle.antt =====
-- A device from its welcome to the end of its control stream.
use mathlib.Core.Option
use subportal.Prelude.{
  ℕ, String, ◌≡◌, refl, Bool, true, false, Option, none, some, List, [], ◌∷◌, ◌++◌, ◌∙◌, sym, ap,
  arith, if◌then◌else◌, str_eq, eq_iff, Bool-cases, Option-cases, inl, inr, Result, ok, err,
}
use subportal.Peers.Registry.{RegistryError}
use subportal.Peers.Clients.{ClientRegistry, find_by_id}
use subportal.Prelude.Table
use subportal.Prelude.Table.{Table}
use subportal.Control.{FocusState, ClientHello, ControlMessage, focus_update, dismiss_notification}
use subportal.Hub.{
  ConnectedClient, Hub, Env, set_focus, send_control, is_exempt, dismiss_all, broadcast_dismiss,
  update_focus, add_client, consume_token,
}
use subportal.Agent.Handshake.{
  Handshake, refused, unsaved, welcomed, check_hello, join_hub, on_control, control_loop,
  after_check, handle_iroh_connection, enrolled_saved, enroll, reconnect, check_token,
}

get-dismiss_all :
    (msg : ControlMessage) (except : Option String) (id : String) (t : Table ConnectedClient)
    → Table.get id (dismiss_all msg except t)
      ≡ Option.map (λ c. if is_exempt except id then c else send_control msg c) (Table.get id t)
unfolding dismiss_all Table.get
get-dismiss_all msg except id [] = refl
get-dismiss_all msg except id ((k, c) ∷ t) = elim (Bool-cases (str_eq k id)) [
  | inl e ↦ rw (e, (eq_iff k id).0 e) refl
  | inr e ↦ rw e (get-dismiss_all msg except id t)
]

-- The dismissals among what a device sends, in order.
abbrev pub dismissals : List (ℕ × ControlMessage) → List ControlMessage
dismissals [] = []
dismissals ((now, focus_update state) ∷ msgs) = dismissals msgs
dismissals ((now, dismiss_notification id) ∷ msgs) = dismiss_notification id ∷ dismissals msgs

-- The client with the messages put into its control channel, if that is open.
abbrev pub told : List ControlMessage → ConnectedClient → ConnectedClient
told ms c =
    if c.control_tx.is_open
    then record c { control_tx = record { is_open = true; sent = c.control_tx.sent ++ ms } }
    else c

-- The client with its focus updates applied, in order.
abbrev pub focused : List (ℕ × ControlMessage) → ConnectedClient → ConnectedClient
focused [] c = c
focused ((now, focus_update state) ∷ msgs) c = focused msgs (set_focus now state c)
focused ((now, dismiss_notification id) ∷ msgs) c = focused msgs c

-- What a client becomes while the device `remote` sends `msgs`.
abbrev pub heard : String → List (ℕ × ControlMessage) → String → ConnectedClient → ConnectedClient
heard remote msgs id c = if str_eq remote id then focused msgs c else told (dismissals msgs) c

append_nil : (ms : List ControlMessage) → ms ++ [] ≡ ms
append_nil [] = refl
append_nil (m ∷ ms) = ap (◌∷◌ m) (append_nil ms)

append_assoc : (as' bs cs : List ControlMessage) → (as' ++ bs) ++ cs ≡ as' ++ (bs ++ cs)
append_assoc [] bs cs = refl
append_assoc (a ∷ as') bs cs = ap (◌∷◌ a) (append_assoc as' bs cs)

told_nil : (c : ConnectedClient) → told [] c ≡ c
told_nil c = elim (Bool-cases c.control_tx.is_open) [
  | inl e ↦ rw e (λ i. record c {
    control_tx = record { is_open = true; sent = append_nil c.control_tx.sent i };
  })
  | inr e ↦ rw e refl
]

told-send_control :
    (m : ControlMessage) (ms : List ControlMessage) (c : ConnectedClient)
    → told ms (send_control m c) ≡ told (m ∷ ms) c
told-send_control m ms c = elim (Bool-cases c.control_tx.is_open) [
  | inl e ↦ rw e (λ i. record c {
    control_tx = record { is_open = true; sent = append_assoc c.control_tx.sent (m ∷ []) ms i };
  })
  | inr e ↦ rw e refl
]

map-map :
    (f g h : ConnectedClient → ConnectedClient) (o : Option ConnectedClient)
    → ((c : ConnectedClient) → g (f c) ≡ h c)
    → Option.map g (Option.map f o) ≡ Option.map h o
map-map f g h none e = refl
map-map f g h (some c) e = ap some (e c)

map-id :
    (f : ConnectedClient → ConnectedClient) (o : Option ConnectedClient)
    → ((c : ConnectedClient) → f c ≡ c)
    → Option.map f o ≡ o
map-id f none e = refl
map-id f (some c) e = ap some (e c)

heard_nil : (remote id : String) (c : ConnectedClient) → heard remote [] id c ≡ c
heard_nil remote id c = elim (Bool-cases (str_eq remote id)) [
  | inl e ↦ rw e refl
  | inr e ↦ rw e (told_nil c)
]

heard-focus :
    (remote id : String) (now : ℕ) (state : FocusState) (msgs : List (ℕ × ControlMessage))
    (o : Option ConnectedClient)
    → Option.map
        (heard remote msgs id)
        (if str_eq remote id then Option.map (set_focus now state) o else o)
      ≡ Option.map (heard remote ((now, focus_update state) ∷ msgs) id) o
heard-focus remote id now state msgs none = ground arith
heard-focus remote id now state msgs (some c) = elim (Bool-cases (str_eq remote id)) [
  | inl e ↦ simp e refl
  | inr e ↦ simp e refl
]

heard-dismiss :
    (remote id n : String) (now : ℕ) (msgs : List (ℕ × ControlMessage)) (c : ConnectedClient)
    → heard remote msgs id
        (if is_exempt (some remote) id then c else send_control (dismiss_notification n) c)
      ≡ heard remote ((now, dismiss_notification n) ∷ msgs) id c
heard-dismiss remote id n now msgs c = elim (Bool-cases (str_eq remote id)) [
  | inl e ↦ rw e refl
  | inr e ↦ rw e (told-send_control (dismiss_notification n) (dismissals msgs) c)
]

-- While a device sends control messages, its own entry follows its focus updates and gets no
-- dismissal, and every other client gets the dismissals, in order, if its channel is open.
pub control_loop_lem :
    (remote id : String) (msgs : List (ℕ × ControlMessage)) (hub : Hub)
    → Table.get id (control_loop remote msgs hub).clients
      ≡ Option.map (heard remote msgs id) (Table.get id hub.clients)
unfolding control_loop on_control update_focus broadcast_dismiss
control_loop_lem remote id [] hub =
    sym (map-id (heard remote [] id) (Table.get id hub.clients) (heard_nil remote id))
control_loop_lem remote id ((now, focus_update state) ∷ msgs) hub =
    control_loop_lem remote id msgs (update_focus now remote state hub)
    ∙ ap (Option.map (heard remote msgs id))
        (Table.get-modify remote id (set_focus now state) hub.clients)
    ∙ heard-focus remote id now state msgs (Table.get id hub.clients)
control_loop_lem remote id ((now, dismiss_notification n) ∷ msgs) hub =
    control_loop_lem remote id msgs (broadcast_dismiss n (some remote) hub)
    ∙ ap (Option.map (heard remote msgs id))
        (get-dismiss_all (dismiss_notification n) (some remote) id hub.clients)
    ∙ map-map _ (heard remote msgs id) (heard remote ((now, dismiss_notification n) ∷ msgs) id)
        (Table.get id hub.clients) (heard-dismiss remote id n now msgs)

-- The entry of `id` behind a handler that welcomed the device: none for the device, and for every other
-- client what it heard.
abbrev pub left_behind :
    Handshake
    → String
    → List (ℕ × ControlMessage)
    → String
    → Option ConnectedClient
    → Option ConnectedClient
left_behind (welcomed answer) remote msgs id o =
    if str_eq remote id then none else Option.map (told (dismissals msgs)) o
left_behind _ remote msgs id o = o

clients-enrolled_saved :
    (hub : Hub) (s : Result (Unit {0}) RegistryError × ClientRegistry)
    → (enrolled_saved hub s).1.clients ≡ hub.clients
unfolding enrolled_saved
clients-enrolled_saved hub (ok u, r) = refl
clients-enrolled_saved hub (err e, r) = refl

clients-enroll :
    (env : Env) (remote : String) (hello : ClientHello) (c : Bool × Hub)
    → (enroll env remote hello c).1.clients ≡ c.1.clients
unfolding enroll
clients-enroll env remote hello (false, hub) = refl
clients-enroll env remote hello (true, hub) = clients-enrolled_saved hub _

clients-check_token :
    (env : Env) (remote : String) (hello : ClientHello) (token : Option String) (hub : Hub)
    → (check_token env remote hello token hub).1.clients ≡ hub.clients
unfolding check_token reconnect consume_token
clients-check_token env remote hello (some token) hub =
    clients-enroll env remote hello (consume_token env.now token hub)
clients-check_token env remote hello none hub =
    elim (Option-cases (find_by_id remote hub.registry)) [
      | inl n ↦ rw n refl
      | inr (e, p) ↦ rw p refl
    ]

clients-check_hello :
    (env : Env) (remote : String) (hello : ClientHello) (hub : Hub)
    → (check_hello env remote hello hub).1.clients ≡ hub.clients
unfolding check_hello
clients-check_hello env remote hello hub = clients-check_token env remote hello hello.token hub

get-join_hub :
    (env : Env) (remote : String) (hello : ClientHello) (connection : ℕ) (hub : Hub) (id : String)
    → str_eq remote id ≡ false
    → Table.get id (join_hub env remote hello connection hub).clients ≡ Table.get id hub.clients
unfolding join_hub add_client
get-join_hub env remote hello connection hub id e =
    Table.get-insert remote id _ hub.clients ∙ rw e refl

heard_other :
    (remote id : String) (msgs : List (ℕ × ControlMessage)) (o : Option ConnectedClient)
    → str_eq remote id ≡ false
    → Option.map (heard remote msgs id) o ≡ Option.map (told (dismissals msgs)) o
heard_other remote id msgs none e = refl
heard_other remote id msgs (some c) e = simp e refl

left_lem :
    (remote id : String) (msgs : List (ℕ × ControlMessage)) (joined hub : Hub)
    → (str_eq remote id ≡ false → Table.get id joined.clients ≡ Table.get id hub.clients)
    → Table.get id (Table.remove remote (control_loop remote msgs joined).clients) ≡ (
        if str_eq remote id
        then none
        else Option.map (told (dismissals msgs)) (Table.get id hub.clients))
left_lem remote id msgs joined hub h =
    Table.get-remove remote id (control_loop remote msgs joined).clients
    ∙ elim (Bool-cases (str_eq remote id)) [
      | inl e ↦ rw e refl
      | inr e ↦
          rw (e, control_loop_lem remote id msgs joined, h e)
            (heard_other remote id msgs (Table.get id hub.clients) e)
    ]

after_check_lem :
    (env : Env) (remote : String) (hello : ClientHello) (connection : ℕ)
    (msgs : List (ℕ × ControlMessage)) (r : Handshake × Hub) (id : String)
    → Table.get id (after_check env remote hello connection msgs r).1.clients
      ≡ left_behind r.0 remote msgs id (Table.get id r.1.clients)
unfolding after_check
after_check_lem env remote hello connection msgs (refused answer, hub) id = refl
after_check_lem env remote hello connection msgs (unsaved, hub) id = refl
after_check_lem env remote hello connection msgs (welcomed answer, hub) id =
    left_lem remote id msgs (join_hub env remote hello connection hub) hub
      (get-join_hub env remote hello connection hub id)

-- Behind a whole handler that no other task interrupts, the device is not among the connected clients if
-- it was welcomed, and every other client is as before but for the dismissals that it was sent: each
-- dismissal of the device is sent to every other connected client, whether or not that one was sent the
-- notification. Where the device was not welcomed, every client is as before.
pub handle_iroh_connection_lem :
    (env : Env) (remote : String) (hello : ClientHello) (connection : ℕ)
    (msgs : List (ℕ × ControlMessage)) (hub : Hub) (id : String)
    → Table.get id (handle_iroh_connection env remote hello connection msgs hub).1.clients
      ≡ left_behind (check_hello env remote hello hub).0 remote msgs id (Table.get id hub.clients)
unfolding handle_iroh_connection
handle_iroh_connection_lem env remote hello connection msgs hub id =
    after_check_lem env remote hello connection msgs (check_hello env remote hello hub) id
    ∙ ap (λ t. left_behind (check_hello env remote hello hub).0 remote msgs id (Table.get id t))
        (clients-check_hello env remote hello hub)
