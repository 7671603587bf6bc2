-- ===== src/Desktop/Enrollment/Reloading.antt =====
-- A daemon that reloads behind a command serves what the command left in the registry.
use subportal.Prelude.{
  ℕ, String, ◌≡◌, refl, ◌∙◌, ap, true, false, ◌||◌, some, List, [], ◌∷◌, ◌++◌, ok, filter, length,
  ltb, str_eq, eq_iff, Bool-cases, inl, inr, arith,
}
use subportal.Prelude.Table.{contains_key}
use subportal.Peers.Registry.{
  written, FileFormat, load_file, parse_file, save_entries, add_entry, removed_saved, remove_entry,
  has_other_id, is_unnamed_by,
}
use subportal.Peers.Servers
use subportal.Peers.Servers.{ServerEntry, ServerRegistry, server_identified}
use subportal.Ticket.{Ticket}
use subportal.Android.Session.{has_server}
use subportal.Desktop.Session.{Attempt, connected}
use subportal.Desktop.Run.{Signal, hangup, run_loop, started}
use subportal.Desktop.Run.Served.{last_loaded, run_loop-started}
use subportal.Desktop.Enrollment.{
  RunningDaemon, server_entry, stored, enroll_connected, enroll_from_stdin, forgotten, forget,
}

has_server-snoc :
    (id : String) (entry : ServerEntry) (es : List ServerEntry)
    → has_server id (filter (has_other_id entry.endpoint_id) es ++ (entry ∷ []))
      ≡ (str_eq entry.endpoint_id id || has_server id es)
has_server-snoc id entry [] = refl
has_server-snoc id entry (e ∷ es) = ground (
  arith,
  has_server-snoc id entry es,
  eq_iff e.endpoint_id entry.endpoint_id,
  eq_iff e.endpoint_id id,
  eq_iff entry.endpoint_id id,
)

has_server-unnamed :
    (id : String) (es : List ServerEntry) → has_server id (filter (is_unnamed_by id) es) ≡ false
has_server-unnamed id [] = refl
has_server-unnamed id (e ∷ es) = ground (arith, has_server-unnamed id es)

module _ (format : FileFormat ServerEntry) where
  -- The signal to reload, where the registry's file can be read.
  abbrev pub reload : ServerRegistry → Signal
  reload r = hangup (Servers.load format true r.file)

  load-save :
      (es : List ServerEntry)
      → Servers.load format true (some (format.print es))
        ≡ ok (record { entries = es; file = some (format.print es) })
  unfolding Servers.load load_file parse_file
  load-save es = rw (format.parse-print es) refl

  -- The daemon behind a reload of what was saved.
  reloaded :
      (pid : ℕ) (servers es : List ServerEntry) (id : String)
      → contains_key id
          (run_loop
            (reload (record { entries = es; file = some (format.print es) }) ∷ [])
            (started pid servers)).active
        ≡ has_server id es
  reloaded pid servers es id =
      run_loop-started pid servers
        (reload (record { entries = es; file = some (format.print es) }) ∷ []) id
      ∙ ap (λ l. has_server id (last_loaded servers (hangup l ∷ []))) (load-save es)

  -- After an enrollment that succeeds, a daemon that was started with any servers and reloads serves the
  -- ticket's server, and each other server exactly if it was in the registry. The registry's file can be
  -- written and read.
  pub run_loop-enroll_from_stdin :
      (daemon : RunningDaemon) (now pid : ℕ) (ticket : Ticket) (attempt : Attempt)
      (servers : List ServerEntry) (r : ServerRegistry) (host id : String)
      → connected attempt ≡ ok host
      → let changed = enroll_from_stdin format written true daemon now ticket attempt r in
        (changed.succeeds ≡ true)
        × (contains_key id (run_loop (reload changed.registry ∷ []) (started pid servers)).active
            ≡ (str_eq ticket.endpoint_id id || has_server id (Servers.list r)))
  unfolding enroll_from_stdin enroll_connected stored server_entry Servers.add add_entry
      save_entries
  run_loop-enroll_from_stdin daemon now pid ticket attempt servers r host id e = rw e (
    refl,
    reloaded pid servers
          (filter (has_other_id ticket.endpoint_id) r.entries ++ (server_entry now ticket ∷ [])) id
        ∙ has_server-snoc id (server_entry now ticket) r.entries,
  )

  -- After a server is forgotten by its endpoint id, a daemon that was started with any servers and reloads
  -- serves it no longer. The registry's file can be written and read.
  run_loop-forget :
      (daemon : RunningDaemon) (pid : ℕ) (servers : List ServerEntry) (r : ServerRegistry)
      (id : String)
      → (forget format written true daemon id r).succeeds ≡ true
      → contains_key id
          (run_loop
            (reload (forget format written true daemon id r).registry ∷ [])
            (started pid servers)).active
        ≡ false
  unfolding forget forgotten Servers.remove remove_entry removed_saved save_entries
  run_loop-forget daemon pid servers r id e =
      let kept = filter (is_unnamed_by id) r.entries in
      elim (Bool-cases (ltb (length kept) (length r.entries))) [
        | inl p ↦ rw p (reloaded pid servers kept id ∙ has_server-unnamed id r.entries)
        | inr p ↦ absurd (no_both (rw p at e))
      ]
    where
      no_both : false ≡ true → ⊥
      no_both q = cc
