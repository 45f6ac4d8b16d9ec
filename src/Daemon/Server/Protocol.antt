-- ===== src/Daemon/Server/Protocol.antt =====
-- The protocol of the resources of the daemon, as a machine that reads the effects of a run.
use skills.Prelude.{
  String, Bool, true, false, not, ◌&&◌, ◌||◌, ◌≡◌, inl, inr, refl, Option, none, some, List, [],
  ◌∷◌, ◌++◌, if◌then◌else◌, arith, Option-cases,
}
use skills.Domain.Errors.{Error}
use skills.Daemon.Server.{
  Effect, opened_store, started_hub, started_runner, listened, server_ended, shut_http, shut_mcp,
  cancelled_hub, cancelled_runner, runner_stopped, closed_store, logged, error_log,
}

-- What is held: the store, the hub and the runner with their contexts, the listener of the HTTP
-- server, and whether a job may run; `over` says that something has been released.
pub record Held : Type 0 where
  pub store : Bool
  pub hub : Bool
  pub runner : Bool
  pub listener : Bool
  pub jobs : Bool
  pub over : Bool

abbrev pub nothing : Held
nothing = record {
  store = false;
  hub = false;
  runner = false;
  listener = false;
  jobs = false;
  over = false;
}

-- Nothing is held any more.
abbrev pub released : Held
released = record nothing { over = true }

-- Whether all that a request needs is there.
abbrev pub ready : Held → Bool
ready h = h.store && (h.hub && h.runner)

-- One effect, or `none` where it breaks the protocol: nothing is acquired while it is held,
-- before what it needs, or after the first release, so that each is acquired once at most; the
-- server listens only while all is held, and it has stopped, once, before the MCP handler is shut
-- down, the hub or the runner is cancelled, or the store is closed; the store is closed only
-- once, when the hub and the runner are cancelled. A context may be cancelled again, which does
-- nothing. `strict` asks besides that no job may still run at the end.
unfoldable pub keep : Bool → Held → Effect → Option Held
keep strict h (opened_store dsn) =
    if h.store || h.over then none else some (record h { store = true })
keep strict h started_hub =
    if h.store && (not h.hub && not h.over) then some (record h { hub = true }) else none
keep strict h started_runner =
    if h.store && (not h.runner && not h.over)
    then some (record h { runner = true; jobs = true })
    else none
keep strict h (listened addr) =
    if ready h && (not h.listener && not h.over) then some (record h { listener = true }) else none
keep strict h server_ended =
    if h.listener then some (record h { listener = false; over = true }) else none
keep strict h shut_http =
    if ready h && h.listener then some (record h { listener = false; over = true }) else none
keep strict h shut_mcp = if ready h && not h.listener then some h else none
keep strict h cancelled_hub =
    if h.store && not h.listener then some (record h { hub = false; over = true }) else none
keep strict h cancelled_runner =
    if h.store && not h.listener then some (record h { runner = false; over = true }) else none
keep strict h runner_stopped = if h.runner then none else some (record h { jobs = false })
keep strict h closed_store =
    if h.store && (not h.listener && (not h.hub && (not h.runner && not (strict && h.jobs))))
    then some released
    else none
keep strict h (logged text) = some h

unfoldable pub keeps : Bool → Held → List Effect → Option Held
unfolding keep
keeps strict h [] = some h
keeps strict h (e ∷ effects) = elim (keep strict h e) [
  | none ↦ none
  | some h' ↦ keeps strict h' effects
]

abbrev pub all_held : Held
all_held = record {
  store = true;
  hub = true;
  runner = true;
  listener = false;
  jobs = true;
  over = false;
}

-- The same while the server listens.
abbrev pub serving : Held
serving = record all_held { listener = true }

abbrev pub then_keeps : Bool → List Effect → Option Held → Option Held
then_keeps strict rest none = none
then_keeps strict rest (some h) = keeps strict h rest

pub keeps-append :
    (strict : Bool) (h : Held) (effects rest : List Effect)
    → keeps strict h (effects ++ rest) ≡ then_keeps strict rest (keeps strict h effects)
unfolding keeps
keeps-append strict h [] rest = refl
keeps-append strict h (e ∷ effects) rest = elim (Option-cases (keep strict h e)) [
  | inl n ↦ ground arith
  | inr (h', k) ↦ let more = keeps-append strict h' effects rest in ground arith
]

pub keeps-error_log :
    (strict : Bool) (h : Held) (text : String) (failed : Option Error) (rest : List Effect)
    → keeps strict h (error_log text failed ++ rest) ≡ keeps strict h rest
unfolding keeps error_log
keeps-error_log strict h text none rest = refl
keeps-error_log strict h text (some e) rest = refl
