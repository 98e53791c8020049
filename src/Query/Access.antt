-- ===== src/Query/Access.antt =====
-- services/request-by-id and services/transaction-by-id: who is shown a transaction.
use mxfactorial.Prelude.{
  Bool, true, false, not, [], ◌∷◌, Option, none, some, Outcome, ok, err, panic, ◌≡◌, ◌⊎◌, refl,
  err_if, unwrap, is_none, is_empty, filter, ◌==◌, string_eq, All, ℤ, and_split, eq_of_beq,
  Bool-cases, inl, inr,
}
use mxfactorial.Prelude.Numeral.{parse_i32}
use mxfactorial.Effect.{Action, lift}
use mxfactorial.Effect.Success.{>>=-ok}
use mxfactorial.Types.Approval.{Approval, Approvals}
use mxfactorial.Types.Errors.{BoxError}
use mxfactorial.Types.Messages.{IntraTransaction, QueryById}
use mxfactorial.Service.Model.{Model}
use mxfactorial.Service.Lookup.{get_approvals_by_transaction_id}
use mxfactorial.Query.{
  Refusal, bad_request, lacks_open, lacks_any, unfinished, or_internal, handle_request_by_id,
  handle_transaction_by_id,
}

module _ {Time : Type 0} where
  -- An approval of the list has the property.
  abbrev pub Some : (Approval Time → Type 0) → Approvals Time → Type 0
  Some P [] = ⊥
  Some P (a ∷ rest) = P a ⊎ Some P rest

  filter-Some :
      (p : Approval Time → Bool) (l : Approvals Time)
      → is_empty (filter p l) ≡ false
      → Some (λ a. p a ≡ true) l
  filter-Some p [] h = cc
  filter-Some p (a ∷ l) h = elim (Bool-cases (p a)) [
    | inl b ↦ inl b
    | inr b ↦ inr (filter-Some p l (rw b at h))
  ]

  filter-none :
      (p : Approval Time → Bool) (l : Approvals Time)
      → is_empty (filter p l) ≡ true
      → All (λ a. p a ≡ false) l
  filter-none p [] h = tt
  filter-none p (a ∷ l) h = elim (Bool-cases (p a)) [
    | inl b ↦ absurd (cc (rw b at h))
    | inr b ↦ (b, filter-none p l (rw b at h))
  ]

is_none-none : {A : Type 0} (o : Option A) → is_none o ≡ true → o ≡ none
is_none-none none h = refl
is_none-none (some a) h = cc

not-false : (b : Bool) → not b ≡ false → b ≡ true
not-false true h = refl
not-false false h = cc

unwrap-some : {E A : Type 0} (o : Option A) {a : A} → unwrap {E = E} o ≡ ok a → o ≡ some a
unwrap-some none h = cc
unwrap-some (some b) h = cc

module _ {Time : Type 0} where
  Some-imp :
      (P Q : Approval Time → Type 0) (l : Approvals Time)
      → ((a : Approval Time) → P a → Q a)
      → Some P l
      → Some Q l
  Some-imp P Q [] f h = absurd h
  Some-imp P Q (a ∷ l) f (inl p) = inl (f a p)
  Some-imp P Q (a ∷ l) f (inr h) = inr (Some-imp P Q l f h)

not_refused : (b : Bool) (x : Refusal) {u : Unit {0}} → err_if b x ≡ ok u → b ≡ false
not_refused true x h = cc
not_refused false x h = refl

module _ {W E A : Type 0} where
  shown : (r : Outcome E A) (w : W) {a : A} → (or_internal (λ u. (r, u)) w).0 ≡ ok a → r ≡ ok a
  shown (ok b) w h = cc
  shown (err e) w h = cc
  shown panic w h = cc

  map_error-ok_inv :
      (m : Action W E A) (w : W) {a : A} → (or_internal m w).0 ≡ ok a → (m w).0 ≡ ok a
  map_error-ok_inv m w h = shown (m w).0 w h

module _ {W Time D : Type 0} (conn : Model W Time D) (connect : Action W (BoxError Time) (Unit {0}))
    (query : QueryById) (w v : W) (answer : IntraTransaction Time) where
  -- A request is shown to an account that has an open approval among those that were read for it.
  pub handle_request_by_id-Some :
      handle_request_by_id conn connect query w ≡ (ok answer, v)
      → (id : ℤ) × (approvals : Approvals Time) × (parse_i32 query.id ≡ some id)
        × ((conn.select_approvals_by_transaction_id_query id (connect w).1).0 ≡ ok approvals)
        × Some (λ a. (a.account_name ≡ query.auth_account) × (a.approval_time ≡ none)) approvals
  unfolding handle_request_by_id get_approvals_by_transaction_id
  handle_request_by_id-Some h =
      let (_, _, h1) = >>=-ok (or_internal connect) _ h in
      let (id, p, h2) = >>=-ok (lift (unwrap (parse_i32 query.id))) _ h1 in
      let (approvals, r, h3) =
        >>=-ok (or_internal (conn.select_approvals_by_transaction_id_query id)) _ h2 in
      let (_, g, _) =
        >>=-ok (lift (err_if (lacks_open query.auth_account approvals) bad_request)) _ h3 in
      (
        id,
        approvals,
        unwrap-some (parse_i32 query.id) p,
        map_error-ok_inv (conn.select_approvals_by_transaction_id_query id) (connect w).1 r,
        Some-imp _ _ approvals
            (λ a b.
              let (n, o) =
                and_split (a.account_name == query.auth_account) (is_none a.approval_time) b in
              (eq_of_beq a.account_name query.auth_account n, is_none-none a.approval_time o))
            (filter-Some _ approvals (not_refused _ bad_request g)),
      )

  -- A transaction is shown to an account that has an approval among those that were read for it, and
  -- only once each of them has a time.
  pub handle_transaction_by_id-Some :
      handle_transaction_by_id conn connect query w ≡ (ok answer, v)
      → (id : ℤ) × (approvals : Approvals Time) × (parse_i32 query.id ≡ some id)
        × ((conn.select_approvals_by_transaction_id_query id (connect w).1).0 ≡ ok approvals)
        × Some (λ a. a.account_name ≡ query.auth_account) approvals
        × All (λ a. is_none a.approval_time ≡ false) approvals
  unfolding handle_transaction_by_id get_approvals_by_transaction_id
  handle_transaction_by_id-Some h =
      let (_, _, h1) = >>=-ok (or_internal connect) _ h in
      let (id, p, h2) = >>=-ok (lift (unwrap (parse_i32 query.id))) _ h1 in
      let (approvals, r, h3) =
        >>=-ok (or_internal (conn.select_approvals_by_transaction_id_query id)) _ h2 in
      let (_, g, h4) =
        >>=-ok (lift (err_if (lacks_any query.auth_account approvals) bad_request)) _ h3 in
      let (_, f, _) = >>=-ok (lift (err_if (unfinished approvals) bad_request)) _ h4 in
      (
        id,
        approvals,
        unwrap-some (parse_i32 query.id) p,
        map_error-ok_inv (conn.select_approvals_by_transaction_id_query id) (connect w).1 r,
        Some-imp _ _ approvals (λ a b. eq_of_beq a.account_name query.auth_account b)
            (filter-Some _ approvals (not_refused _ bad_request g)),
        filter-none _ approvals (not-false _ (not_refused _ bad_request f)),
      )
