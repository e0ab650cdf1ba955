-- ===== src/Server/Run.antt =====
-- httpserver/server_commands.go: `execContext`, which `RunServer` calls. The goroutines are threads
-- whose steps interleave in any order. What `net.Listen` and `http.Server` answer, the timer, and when
-- the context is cancelled, is the environment's.
pub mod Bounded
pub mod Phases
pub mod Outcomes
mod Tests
use joe_cli_http.Prelude.{
  ℕ, Bool, true, false, List, [], ◌∷◌, ◌++◌, Option, none, some, Bytes, ◌≡◌, ◌+◌,
}
use joe_cli_http.Prelude.Text.{codes}
use joe_cli_http.Server.Mux
use joe_cli_http.Server.Mux.{Server, Made, listen}
use joe_cli_http.Server.Ready.{Effect, ReadyFunc}

-- What `ListenAndServe` returns: it did not listen, or it served until the error of this text.
pub data Failure : Type 0 where
  unlistened : Mux.Error → Failure
  served : Bytes → Failure

-- An error of `cli.Exit`
pub record Exit : Type 0 where
  pub message : Bytes
  pub status : ℕ

-- `serverFailed`; `show` is the text of an error.
unfoldable pub server_failed : (Failure → Bytes) → Failure → Exit
server_failed show e = record {
  message = codes "fatal: unable to start server: " ++ show e;
  status = 1;
}

-- `execContext` at its `select`, at `<-c.Done()`, and returned.
pub data Main : Type 0 where
  selecting waiting : Main
  returned : Option Exit → Main

-- `thunk`: before `net.Listen`, in `Serve`, at `errors <- err`, and at its end, with its `err`.
pub data Thunk : Type 0 where
  starting serving : Thunk
  sending : Failure → Thunk
  ended : Option Failure → Thunk

-- `go ready(c)`: not started, or with these functions left to run.
pub data Readying (H : Type 0) : Type 0 where
  not_started : Readying H
  running : List (ReadyFunc H) → Readying H

-- `errors` is the channel's buffer, of size one; `log` is what the ready functions have done outside
-- of the server.
pub record Run (H : Type 0) : Type 0 where
  pub main : Main
  pub thunk : Thunk
  pub errors : Option Failure
  pub timed_out : Bool
  pub cancelled : Bool
  pub readying : Readying H
  pub server : Server H
  pub log : List Effect

-- What the environment answers to `ListenAndServe`: the handler factory, the address that
-- `net.Listen` has bound, if it has, and what `Serve` returns, if it does return: an error or nil.
pub record Answers : Type 0 where
  pub factory : Option Made
  pub bound : Option Bytes
  pub serve : Option (Option Bytes)

abbrev pub after_listen : Option Mux.Error → Thunk
after_listen none = serving
after_listen (some e) = sending (unlistened e)

abbrev pub after_serve : Option Bytes → Thunk
after_serve none = ended none
after_serve (some e) = sending (served e)

module _ {H : Type 0} (show : Failure → Bytes) (fs : List (ReadyFunc H)) (answers : Answers) where
  -- One step of a goroutine, or of the environment: the timer of `allowStartupTime` and the signal.
  -- The ready functions `fs` run one after another, beside everything else.
  pub data Step (s : Run H) : Run H → Type 0 where
    listens :
        s.thunk ≡ starting
        → Step s (record s {
          thunk = after_listen (listen s.server answers.factory answers.bound).1;
          server = (listen s.server answers.factory answers.bound).0;
        })
    serves :
        (r : Option Bytes)
        → s.thunk ≡ serving
        → answers.serve ≡ some r
        → Step s (record s { thunk = after_serve r })
    sends :
        (e : Failure)
        → s.thunk ≡ sending e
        → s.errors ≡ none
        → Step s (record s { thunk = ended (some e); errors = some e })
    expires : s.timed_out ≡ false → Step s (record s { timed_out = true })
    cancels : s.cancelled ≡ false → Step s (record s { cancelled = true })
    starts_ready :
        s.main ≡ selecting
        → s.timed_out ≡ true
        → Step s (record s { main = waiting; readying = running fs })
    receives :
        (e : Failure)
        → s.main ≡ selecting
        → s.errors ≡ some e
        → Step s (record s { main = returned (some (server_failed show e)); errors = none })
    readies :
        (f : ReadyFunc H) (rest : List (ReadyFunc H))
        → s.readying ≡ running (f ∷ rest)
        → Step s (record s {
          readying = running rest;
          server = (f s.server).0;
          log = s.log ++ (f s.server).1;
        })
    wakes : s.main ≡ waiting → s.cancelled ≡ true → Step s (record s { main = returned none })

  -- `execContext` at `go thunk()`
  abbrev pub first_run : Server H → Run H
  first_run server = record {
    main = selecting;
    thunk = starting;
    errors = none;
    timed_out = false;
    cancelled = false;
    readying = not_started;
    server = server;
    log = [];
  }

  -- What a run comes to in so many steps.
  pub data Reach (server : Server H) : ℕ → Run H → Type 0 where
    start : Reach server 0 (first_run server)
    later : {n : ℕ} {s t : Run H} → Reach server n s → Step s t → Reach server (n + 1) t
