-- ===== src/AutoTransact/Worker/Failure.antt =====
-- The handlers and the queue worker (services/auto-transact/src/main.rs): what ends a batch and
-- what ends the worker.
use mxfactorial.Prelude.{
  true, false, String, List, [], ◌∷◌, ◌++◌, Option, none, some, ok, err, panic, ◌≡◌, refl, ap,
  Outcome, ◌↔◌, sym, subst, ◌∙◌, inl, inr, Option-cases,
}
use Prim.Native.Nat.{min}
use Prim.Native.String.{len}
use mxfactorial.Effect.{Action}
use mxfactorial.Queue.{Queue, Message}
use mxfactorial.Types.Transaction.{Transaction}
use mxfactorial.Types.Messages.{IntraTransaction}
use mxfactorial.AutoTransact.Retry.{RetryConfig}
use mxfactorial.AutoTransact.Worker.{
  ProcessError, StatusCode, ok_status, internal_server_error, is_char_boundary, log_line,
  process_transaction, handle_records, worker_round,
}

module _ {W Time : Type 0} (config : RetryConfig)
    (post_rule : Transaction Time → Action W (Unit {0}) (IntraTransaction Time))
    (post_create : IntraTransaction Time → Action W (Unit {0}) String) where
  abbrev process : Transaction Time → Action W ProcessError (Unit {0})
  process = process_transaction config post_rule post_create

  -- The posts of the transactions of a list succeed one after the other, from one world to another.
  pub data Processed (read_json : String → Option (Transaction Time))
      : List (Option String) → W → W → Type 0 where
    done : (w : W) → Processed read_json [] w w
    skipped :
        {rest : List (Option String)} {w u : W}
        → Processed read_json rest w u
        → Processed read_json (none ∷ rest) w u
    unread :
        {rest : List (Option String)} {w u : W} (text : String)
        → read_json text ≡ none
        → Processed read_json rest w u
        → Processed read_json (some text ∷ rest) w u
    posted_one :
        {rest : List (Option String)} {w v u : W} (text : String) (t : Transaction Time)
        → read_json text ≡ some t
        → process t w ≡ (ok tt, v)
        → Processed read_json rest v u
        → Processed read_json (some text ∷ rest) w u

  module _ (read_json : String → Option (Transaction Time)) where
    -- The first record that fails ends the batch with a server error: the records behind it are
    -- not tried.
    pub handle_records-failed :
        (before after : List (Option String)) (text : String) (t : Transaction Time)
        (e : ProcessError) (w v u : W)
        → Processed read_json before w v
        → read_json text ≡ some t
        → process t v ≡ (err e, u)
        → handle_records config post_rule post_create read_json (before ++ some text ∷ after) w
          ≡ (ok internal_server_error, u)
    unfolding handle_records process_transaction
    handle_records-failed before after text t e w v u (done _) r p = rw (r, p) refl
    handle_records-failed before after text t e w v u (skipped d) r p =
        handle_records-failed _ after text t e w v u d r p
    handle_records-failed before after text t e w v u (unread s n d) r p =
        rw n (handle_records-failed _ after text t e w v u d r p)
    handle_records-failed before after text t e w v u (posted_one {v = x} s t' n q d) r p =
        rw (n, q) (handle_records-failed _ after text t e x v u d r p)

    -- A batch whose transactions all go through is answered with success.
    pub handle_records-Processed :
        (records : List (Option String)) (w u : W)
        → Processed read_json records w u
        → handle_records config post_rule post_create read_json records w ≡ (ok ok_status, u)
    unfolding handle_records process_transaction
    handle_records-Processed records w u (done _) = refl
    handle_records-Processed records w u (skipped d) = handle_records-Processed _ w u d
    handle_records-Processed records w u (unread s n d) =
        rw (n, handle_records) (handle_records-Processed _ w u d)
    handle_records-Processed records w u (posted_one {v = x} s t n q d) =
        rw (n, handle_records, q) (handle_records-Processed _ x u d)

    abbrev handled : List (Option String) → W → Outcome ProcessError StatusCode × W
    handled = handle_records config post_rule post_create read_json

    handle_records-unread :
        (rest : List (Option String)) (text : String) (w : W)
        → read_json text ≡ none
        → handled (some text ∷ rest) w ≡ handled rest w
    unfolding handle_records
    handle_records-unread rest text w n = rw (n, handle_records) refl

    handle_records-posted :
        (rest : List (Option String)) (text : String) (t : Transaction Time) (w v : W)
        → read_json text ≡ some t
        → process t w ≡ (ok tt, v)
        → handled (some text ∷ rest) w ≡ handled rest v
    unfolding handle_records process_transaction
    handle_records-posted rest text t w v r p = rw (r, handle_records, p) refl

    handle_records-panics :
        (rest : List (Option String)) (text : String) (t : Transaction Time) (w v : W)
        → read_json text ≡ some t
        → process t w ≡ (panic, v)
        → handled (some text ∷ rest) w ≡ (panic, v)
    unfolding handle_records process_transaction
    handle_records-panics rest text t w v r p = rw (r, handle_records, p) refl

    one_ok :
        (rest : List (Option String)) (text : String) (t : Transaction Time) (w u v : W)
        (o : Outcome ProcessError (Unit {0}))
        → read_json text ≡ some t
        → process t w ≡ (o, v)
        → (handled rest v ≡ (ok ok_status, u) → Processed read_json rest v u)
        → handled (some text ∷ rest) w ≡ (ok ok_status, u)
        → Processed read_json (some text ∷ rest) w u
    one_ok rest text t w u v (ok tt) r p others h =
        posted_one text t r p (others (sym (handle_records-posted rest text t w v r p) ∙ h))
    one_ok rest text t w u v (err e) r p others h =
        let failed = handle_records-failed [] rest text t e w w v (done w) r p in
        cc (ap (λ x. x.0) (sym failed ∙ h))
    one_ok rest text t w u v panic r p others h =
        cc (ap (λ x. x.0) (sym (handle_records-panics rest text t w v r p) ∙ h))

    handle_records-ok :
        (records : List (Option String)) (w u : W)
        → handled records w ≡ (ok ok_status, u)
        → Processed read_json records w u
    unfolding handle_records
    handle_records-ok [] w u h = subst (λ v. Processed read_json [] w v) (ap (λ x. x.1) h) (done w)
    handle_records-ok (none ∷ rest) w u h = skipped (handle_records-ok rest w u h)
    handle_records-ok (some text ∷ rest) w u h = elim (Option-cases (read_json text)) [
      | inl n ↦
          unread text n (handle_records-ok rest w u (sym (handle_records-unread rest text w n) ∙ h))
      | inr (t, r) ↦
          one_ok rest text t w u (process t w).1 (process t w).0 r refl
            (λ k. handle_records-ok rest (process t w).1 u k) h
    ]

    -- A batch is answered with success exactly when every record of it has no body, or one that
    -- cannot be read, or holds a transaction whose processing succeeded, each in the world that the
    -- one before it left.
    pub handle_records-ok_iff :
        (records : List (Option String)) (w u : W)
        → (handle_records config post_rule post_create read_json records w ≡ (ok ok_status, u))
          ↔ Processed read_json records w u
    handle_records-ok_iff records w u =
        (handle_records-ok records w u, handle_records-Processed records w u)

    -- A message whose first eighty bytes end inside a character ends the worker, before it is
    -- processed, where the log line is written.
    pub worker_round-cut :
        (queue : Queue W) (msg : Message) (w v : W)
        → queue.receive w ≡ (ok msg, v)
        → is_char_boundary msg.body (min 80 (len msg.body)) ≡ false
        → worker_round config post_rule post_create read_json true queue w ≡ (panic, v)
    unfolding worker_round log_line
    worker_round-cut queue msg w v q b = rw (q, b) refl
