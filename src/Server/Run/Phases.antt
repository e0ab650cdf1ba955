-- ===== src/Server/Run/Phases.antt =====
-- What holds at each phase of a run of the server's command, and what keeps it.
use joe_cli_http.Prelude.{
  Bool, true, List, [], ◌∷◌, ◌++◌, Option, none, some, Bytes, ◌≡◌, refl, sym, ap, ◌∙◌, append-nil,
  append_assoc,
}
use joe_cli_http.Server.Mux
use joe_cli_http.Server.Mux.{Server, listen}
use joe_cli_http.Server.Ready.{Effect, ReadyFunc}
use joe_cli_http.Server.Run.{
  Failure, unlistened, served, server_failed, Main, selecting, waiting, returned, Thunk, starting,
  serving, sending, ended, Readying, not_started, running, Answers, after_listen, after_serve,
}

abbrev pub failure_of : Option Mux.Error → Option (Option Bytes) → Option Failure
failure_of (some e) serve = some (unlistened e)
failure_of none none = none
failure_of none (some none) = none
failure_of none (some (some e)) = some (served e)

abbrev pub IsEnded : Thunk → Type 0
IsEnded (ended o) = Unit
IsEnded _ = ⊥

module _ {H : Type 0} where
  -- Functions that have run, each with the server that it found.
  abbrev pub functions : List (ReadyFunc H × Server H) → List (ReadyFunc H)
  functions [] = []
  functions ((f, u) ∷ ran) = f ∷ functions ran

  abbrev pub outputs : List (ReadyFunc H × Server H) → List Effect
  outputs [] = []
  outputs ((f, u) ∷ ran) = (f u).1 ++ outputs ran

  functions-snoc :
      (ran : List (ReadyFunc H × Server H)) (f : ReadyFunc H) (u : Server H)
      (rest : List (ReadyFunc H))
      → functions (ran ++ (f, u) ∷ []) ++ rest ≡ functions ran ++ f ∷ rest
  functions-snoc [] f u rest = refl
  functions-snoc ((g, v) ∷ ran) f u rest = ap (◌∷◌ g) (functions-snoc ran f u rest)

  outputs-snoc :
      (ran : List (ReadyFunc H × Server H)) (f : ReadyFunc H) (u : Server H)
      → outputs (ran ++ (f, u) ∷ []) ≡ outputs ran ++ (f u).1
  outputs-snoc [] f u = append-nil (f u).1
  outputs-snoc ((g, v) ∷ ran) f u = simp (outputs-snoc ran f u, append_assoc)

  -- The failure that `ListenAndServe` returns on a server, if it returns one.
  abbrev pub fate : Answers → Server H → Option Failure
  fate a server = failure_of (listen server a.factory a.bound).1 a.serve

  -- How far the thunk has come on that server.
  abbrev pub IsFrom : Answers → Server H → Thunk → Server H → Type 0
  IsFrom a server starting now = now ≡ server
  IsFrom a server serving now = (listen server a.factory a.bound).1 ≡ none
  IsFrom a server (sending e) now = fate a server ≡ some e
  IsFrom a server (ended none) now = Unit
  IsFrom a server (ended (some e)) now = fate a server ≡ some e

  pub IsFrom-listen :
      (a : Answers) (server now : Server H) (o : Option Mux.Error)
      → (listen server a.factory a.bound).1 ≡ o
      → IsFrom a server (after_listen o) now
  IsFrom-listen a server now none e = e
  IsFrom-listen a server now (some x) e = ap (λ o. failure_of o a.serve) e

  pub IsFrom-serve :
      (a : Answers) (server now : Server H) (r : Option Bytes)
      → a.serve ≡ some r
      → (listen server a.factory a.bound).1 ≡ none
      → IsFrom a server (after_serve r) now
  IsFrom-serve a server now none e l = tt
  IsFrom-serve a server now (some x) e l =
      ap (λ o. failure_of o a.serve) l ∙ ap (λ r. failure_of none r) e

  -- The ready functions that have run are the first ones, and the log is what they have done.
  abbrev pub HasRun : List (ReadyFunc H) → Readying H → List Effect → Type 0
  HasRun fs not_started log = log ≡ []
  HasRun fs (running rest) log =
      (ran : List (ReadyFunc H × Server H)) × (functions ran ++ rest ≡ fs) × (log ≡ outputs ran)

  pub HasRun-start :
      (fs : List (ReadyFunc H)) (log : List Effect)
      → HasRun fs not_started log
      → HasRun fs (running fs) log
  HasRun-start fs log e = ([], refl, e)

  pub HasRun-next :
      (fs : List (ReadyFunc H)) (f : ReadyFunc H) (rest : List (ReadyFunc H)) (u : Server H)
      (log : List Effect)
      → HasRun fs (running (f ∷ rest)) log
      → HasRun fs (running rest) (log ++ (f u).1)
  HasRun-next fs f rest u log (ran, e, l) = (
    ran ++ (f, u) ∷ [],
    functions-snoc ran f u rest ∙ e,
    ap (λ (k : List Effect). k ++ (f u).1) l ∙ sym (outputs-snoc ran f u),
  )

  abbrev pub IsStarted : Readying H → Type 0
  IsStarted not_started = ⊥
  IsStarted (running rest) = Unit

  abbrev pub IsPhase : (Failure → Bytes) → Main → Thunk → Readying H → Bool → Bool → Type 0
  IsPhase show selecting th r timed cancelled = r ≡ not_started
  IsPhase show waiting th r timed cancelled = (timed ≡ true) × IsStarted r
  IsPhase show (returned none) th r timed cancelled =
      (timed ≡ true) × (cancelled ≡ true) × IsStarted r
  IsPhase show (returned (some x)) th r timed cancelled =
      (r ≡ not_started) × (e : Failure) × (th ≡ ended (some e)) × (x ≡ server_failed show e)

  -- Nothing but the thunk changes, which has not ended.
  pub IsPhase-thunk :
      (show : Failure → Bytes) (m : Main) (th th' : Thunk) (r : Readying H) (t c : Bool)
      → ¬ IsEnded th
      → IsPhase show m th r t c
      → IsPhase show m th' r t c
  IsPhase-thunk show selecting th th' r t c n h = h
  IsPhase-thunk show waiting th th' r t c n h = h
  IsPhase-thunk show (returned none) th th' r t c n h = h
  IsPhase-thunk show (returned (some x)) th th' r t c n (a, e, p, q) = absurd (n (rw p tt))

  pub IsPhase-timer :
      (show : Failure → Bytes) (m : Main) (th : Thunk) (r : Readying H) (t c : Bool)
      → IsPhase show m th r t c
      → IsPhase show m th r true c
  IsPhase-timer show selecting th r t c h = h
  IsPhase-timer show waiting th r t c h = (refl, h.1)
  IsPhase-timer show (returned none) th r t c (a, b, h) = (refl, b, h)
  IsPhase-timer show (returned (some x)) th r t c h = h

  pub IsPhase-cancel :
      (show : Failure → Bytes) (m : Main) (th : Thunk) (r : Readying H) (t c : Bool)
      → IsPhase show m th r t c
      → IsPhase show m th r t true
  IsPhase-cancel show selecting th r t c h = h
  IsPhase-cancel show waiting th r t c h = h
  IsPhase-cancel show (returned none) th r t c (a, b, h) = (a, refl, h)
  IsPhase-cancel show (returned (some x)) th r t c h = h

  -- A function runs only once they are started.
  pub IsPhase-next :
      (show : Failure → Bytes) (m : Main) (th : Thunk) (fs rest : List (ReadyFunc H)) (t c : Bool)
      → IsPhase show m th (running fs) t c
      → IsPhase show m th (running rest) t c
  IsPhase-next show selecting th fs rest t c h = cc
  IsPhase-next show waiting th fs rest t c h = h
  IsPhase-next show (returned none) th fs rest t c h = h
  IsPhase-next show (returned (some x)) th fs rest t c (a, e, p, q) = cc
