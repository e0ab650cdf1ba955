-- ===== src/Server/Run/Outcomes.antt =====
-- What a run of the server's command returns, and what its ready functions have done by then.
use joe_cli_http.Prelude.{ℕ, List, [], some, Bytes, ◌≡◌, refl, sym, ap, subst}
use joe_cli_http.Server.Mux.{Server, listen}
use joe_cli_http.Server.Ready.{ReadyFunc}
use joe_cli_http.Server.Run.{
  Failure, Exit, server_failed, returned, Thunk, starting, serving, ended, sending, Readying,
  not_started, running, Run, Answers, Step, listens, serves, sends, expires, cancels, starts_ready,
  receives, readies, wakes, Reach, start, later,
}
use joe_cli_http.Server.Run.Phases.{
  fate, IsFrom, IsFrom-listen, IsFrom-serve, HasRun, HasRun-start, HasRun-next, IsPhase, IsEnded,
  IsPhase-thunk, IsPhase-timer, IsPhase-cancel, IsPhase-next,
}

module _ {H : Type 0} (show : Failure → Bytes) (fs : List (ReadyFunc H)) (answers : Answers) where
  pub record Inv (server : Server H) (s : Run H) : Type 0 where
    pub buffer : (e : Failure) → s.errors ≡ some e → s.thunk ≡ ended (some e)
    pub origin : s.readying ≡ not_started → IsFrom answers server s.thunk s.server
    pub phase : IsPhase show s.main s.thunk s.readying s.timed_out s.cancelled
    pub has_run : HasRun fs s.readying s.log

  IsEnded-of : {th : Thunk} (o : Thunk) → th ≡ o → ¬ IsEnded o → ¬ IsEnded th
  IsEnded-of o p n e = n (subst IsEnded p e)

  -- Only the thunk changes, which had not ended.
  Inv-thunk :
      {server : Server H} {s : Run H} (th : Thunk) (v : Server H)
      → Inv server s
      → ¬ IsEnded s.thunk
      → (s.readying ≡ not_started → IsFrom answers server th v)
      → Inv server (record s { thunk = th; server = v })
  Inv-thunk {server} {s} th v i n f = record {
    buffer = λ e p. absurd (n (subst IsEnded (sym (i.buffer e p)) tt));
    origin = f;
    phase = IsPhase-thunk show s.main s.thunk th s.readying s.timed_out s.cancelled n i.phase;
    has_run = i.has_run;
  }

  started-ne : {r : Readying H} (rest : List (ReadyFunc H)) → r ≡ running rest → ¬ (r ≡ not_started)
  started-ne rest p q = cc

  Step-Inv :
      {server : Server H} {s t : Run H} → Step show fs answers s t → Inv server s → Inv server t
  Step-Inv {server} {s} (listens p) i = Inv-thunk _ _ i (IsEnded-of starting p (λ e. e)) λ q.
      IsFrom-listen answers server _ _ (
        ap (λ (v : Server H). (listen v answers.factory answers.bound).1)
          (sym (subst (λ th. IsFrom answers server th s.server) p (i.origin q))))
  Step-Inv {server} {s} (serves r p a) i =
      Inv-thunk _ s.server i (IsEnded-of serving p (λ e. e)) λ q.
        IsFrom-serve answers server s.server r a
          (subst (λ th. IsFrom answers server th s.server) p (i.origin q))
  Step-Inv {server} {s} (sends e p q) i = record {
    buffer = λ e' r. ap ended r;
    origin = λ r. subst (λ th. IsFrom answers server th s.server) p (i.origin r);
    phase =
        IsPhase-thunk show s.main s.thunk (ended (some e)) s.readying s.timed_out s.cancelled
          (IsEnded-of (sending e) p (λ n. n)) i.phase;
    has_run = i.has_run;
  }
  Step-Inv {server} {s} (expires p) i = record {
    buffer = i.buffer;
    origin = i.origin;
    phase = IsPhase-timer show s.main s.thunk s.readying s.timed_out s.cancelled i.phase;
    has_run = i.has_run;
  }
  Step-Inv {server} {s} (cancels p) i = record {
    buffer = i.buffer;
    origin = i.origin;
    phase = IsPhase-cancel show s.main s.thunk s.readying s.timed_out s.cancelled i.phase;
    has_run = i.has_run;
  }
  Step-Inv {server} {s} (starts_ready p q) i = record {
    buffer = i.buffer;
    origin = λ r. cc;
    phase = (q, tt);
    has_run = HasRun-start fs s.log (subst (λ r. HasRun fs r s.log) (rw p at i.phase) i.has_run);
  }
  Step-Inv {server} {s} (receives e p q) i = record {
    buffer = λ e' r. cc;
    origin = i.origin;
    phase = (rw p at i.phase, e, i.buffer e q, refl);
    has_run = i.has_run;
  }
  Step-Inv {server} {s} (readies f rest p) i = record {
    buffer = i.buffer;
    origin = λ r. cc;
    phase =
        IsPhase-next show s.main s.thunk _ rest s.timed_out s.cancelled
          (subst (λ r. IsPhase show s.main s.thunk r s.timed_out s.cancelled) p i.phase);
    has_run = HasRun-next fs f rest s.server s.log (subst (λ r. HasRun fs r s.log) p i.has_run);
  }
  Step-Inv {server} {s} (wakes p c) i = record {
    buffer = i.buffer;
    origin = i.origin;
    phase = let (t, l) = rw p at i.phase in (t, c, l);
    has_run = i.has_run;
  }

  pub Reach-Inv :
      {server : Server H} {n : ℕ} {s : Run H} → Reach show fs answers server n s → Inv server s
  Reach-Inv start = record { buffer = λ e p. cc; origin = λ p. refl; phase = refl; has_run = refl }
  Reach-Inv (later r st) = Step-Inv st (Reach-Inv r)

  -- Where the command returns an exit, it reports the failure that `ListenAndServe` returns on the
  -- server that the command was given, and no ready function has been started or has done anything.
  pub Reach-exit :
      (server : Server H) (n : ℕ) (s : Run H) (x : Exit)
      → Reach show fs answers server n s
      → s.main ≡ returned (some x)
      → (e : Failure) × (fate answers server ≡ some e)
        × (x ≡ server_failed show e)
        × (s.readying ≡ not_started)
        × (s.log ≡ [])
  Reach-exit server n s x r p =
      let i = Reach-Inv r in
      let (a, e, t, f) =
        subst (λ m. IsPhase show m s.thunk s.readying s.timed_out s.cancelled) p i.phase in
      (
        e,
        subst (λ th. IsFrom answers server th s.server) t (i.origin a),
        f,
        a,
        subst (λ q. HasRun fs q s.log) a i.has_run,
      )
