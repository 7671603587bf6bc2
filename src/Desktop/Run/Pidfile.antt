-- ===== src/Desktop/Run/Pidfile.antt =====
-- What the commands find in the pidfile of a daemon.
use subportal.Prelude.{
  ℕ, ◌≡◌, refl, ◌∙◌, ap, Bool, true, false, none, some, List, [], ◌∷◌, any, Result, ok, err,
  if◌then◌else◌, ◌<◌,
}
use subportal.Prelude.Decimal.{to_decimal}
use subportal.Prelude.Decimal.Parse.{parse_u32-to_decimal}
use subportal.Peers.Registry.{RegistryError}
use subportal.Peers.Servers
use subportal.Peers.Servers.{ServerRegistry}
use subportal.Desktop.Run.{
  Daemon, Signal, hangup, interrupt, started, run_loop, run, read_pidfile, reload_servers,
}

abbrev is_interrupt : Signal → Bool
is_interrupt (hangup loaded) = false
is_interrupt interrupt = true

-- The daemon has come to its loop and left it.
abbrev pub ended : Result ServerRegistry RegistryError → List Signal → Bool
ended (err e) signals = false
ended (ok registry) signals = any is_interrupt signals

run_loop-pidfile :
    (signals : List Signal) (d : Daemon)
    → (run_loop signals d).pidfile ≡ (if any is_interrupt signals then none else d.pidfile)
unfolding run_loop reload_servers
run_loop-pidfile [] d = refl
run_loop-pidfile (hangup (ok registry) ∷ signals) d =
    run_loop-pidfile signals (reload_servers (ok registry) d)
run_loop-pidfile (hangup (err e) ∷ signals) d = run_loop-pidfile signals d
run_loop-pidfile (interrupt ∷ signals) d = refl

-- The pidfile of a daemon with a process id of 32 bits reads as that id, until an interrupt ends the
-- daemon's loop; then nothing is read. A daemon that could not load its registry has ended, and its
-- pidfile reads as its id all the same.
pub read_pidfile-run :
    (pid : ℕ) (loaded : Result ServerRegistry RegistryError) (signals : List Signal)
    → pid < 4294967296
    → read_pidfile (run pid loaded signals).pidfile
      ≡ (if ended loaded signals then none else some pid)
unfolding run started read_pidfile
read_pidfile-run pid (err e) signals h = parse_u32-to_decimal pid h
read_pidfile-run pid (ok registry) signals h =
    ap read_pidfile (run_loop-pidfile signals (started pid (Servers.list registry)))
    ∙ read_kept (any is_interrupt signals)
  where
    read_kept :
        (b : Bool)
        → read_pidfile (if b then none else some (to_decimal pid)) ≡ (if b then none else some pid)
    read_kept true = refl
    read_kept false = parse_u32-to_decimal pid h
