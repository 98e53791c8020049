-- ===== src/Types/Approval/Equality.antt =====
-- The derived equality of `Approval` (crates/types/src/approval.rs).
use mxfactorial.Prelude.{
  Bool, true, ◌&&◌, ◌≡◌, ◌↔◌, subst, Eq, ◌==◌, beq_refl, eq_of_beq, and_split, and_join, string_eq,
  option_eq,
}
use mxfactorial.Types.Role.{role_eq}
use mxfactorial.Types.Approval.{Approval}

module _ {Time : Type 0} ⦃e : Eq Time⦄ where
  -- `PartialEq` of `Approval`, derived: every field is compared.
  abbrev pub approval_beq : Approval Time → Approval Time → Bool
  approval_beq a b =
      (a.id == b.id)
      && ((a.rule_instance_id == b.rule_instance_id)
          && ((a.transaction_id == b.transaction_id)
              && ((a.transaction_item_id == b.transaction_item_id)
                  && ((a.account_name == b.account_name)
                      && ((a.account_role == b.account_role)
                          && ((a.device_id == b.device_id)
                              && ((a.device_latlng == b.device_latlng)
                                  && ((a.approval_time == b.approval_time)
                                      && ((a.rejection_time == b.rejection_time)
                                          && (a.expiration_time == b.expiration_time))))))))))

  approval_beq_sound : (a b : Approval Time) → approval_beq a b ≡ true → a ≡ b
  approval_beq_sound a b h0 =
      let (p0, h1) = and_split _ _ h0 in
      let (p1, h2) = and_split _ _ h1 in
      let (p2, h3) = and_split _ _ h2 in
      let (p3, h4) = and_split _ _ h3 in
      let (p4, h5) = and_split _ _ h4 in
      let (p5, h6) = and_split _ _ h5 in
      let (p6, h7) = and_split _ _ h6 in
      let (p7, h8) = and_split _ _ h7 in
      let (p8, h9) = and_split _ _ h8 in
      let (p9, h10) = and_split _ _ h9 in
      λ i. record {
        id = eq_of_beq a.id b.id p0 i;
        rule_instance_id = eq_of_beq a.rule_instance_id b.rule_instance_id p1 i;
        transaction_id = eq_of_beq a.transaction_id b.transaction_id p2 i;
        transaction_item_id = eq_of_beq a.transaction_item_id b.transaction_item_id p3 i;
        account_name = eq_of_beq a.account_name b.account_name p4 i;
        account_role = eq_of_beq a.account_role b.account_role p5 i;
        device_id = eq_of_beq a.device_id b.device_id p6 i;
        device_latlng = eq_of_beq a.device_latlng b.device_latlng p7 i;
        approval_time = eq_of_beq a.approval_time b.approval_time p8 i;
        rejection_time = eq_of_beq a.rejection_time b.rejection_time p9 i;
        expiration_time = eq_of_beq a.expiration_time b.expiration_time h10 i;
      }

  approval_beq_refl : (a : Approval Time) → approval_beq a a ≡ true
  approval_beq_refl a = and_join _ _ (beq_refl a.id) (
      and_join _ _ (beq_refl a.rule_instance_id) (
        and_join _ _ (beq_refl a.transaction_id) (
          and_join _ _ (beq_refl a.transaction_item_id) (
            and_join _ _ (beq_refl a.account_name) (
              and_join _ _ (beq_refl a.account_role) (
                and_join _ _ (beq_refl a.device_id) (
                  and_join _ _ (beq_refl a.device_latlng) (
                    and_join _ _ (beq_refl a.approval_time) (
                      and_join _ _ (beq_refl a.rejection_time) (beq_refl a.expiration_time))))))))))

  pub approval_beq_iff : (a b : Approval Time) → (approval_beq a b ≡ true) ↔ (a ≡ b)
  approval_beq_iff a b =
      (approval_beq_sound a b, λ h. subst (λ c. approval_beq a c ≡ true) h (approval_beq_refl a))

  instance abbrev pub approval_eq : Eq (Approval Time)
  approval_eq = record { beq = approval_beq; beq_iff = approval_beq_iff }
