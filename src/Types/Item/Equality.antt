-- ===== src/Types/Item/Equality.antt =====
-- The derived equality of `TransactionItem` (crates/types/src/transaction_item.rs).
use mxfactorial.Prelude.{
  Bool, true, ◌&&◌, ◌≡◌, ◌↔◌, subst, Eq, ◌==◌, beq_refl, eq_of_beq, and_split, and_join, string_eq,
  option_eq, list_eq,
}
use mxfactorial.Types.Approval.Equality.{approval_eq}
use mxfactorial.Types.Item.{TransactionItem}

module _ {Time : Type 0} ⦃e : Eq Time⦄ where
  -- `PartialEq` of `TransactionItem`, derived: every field is compared.
  abbrev pub item_beq : TransactionItem Time → TransactionItem Time → Bool
  item_beq a b =
      (a.id == b.id)
      && ((a.transaction_id == b.transaction_id)
          && ((a.item_id == b.item_id)
              && ((a.price == b.price)
                  && ((a.quantity == b.quantity)
                      && ((a.rule_instance_id == b.rule_instance_id)
                          && ((a.rule_exec_ids == b.rule_exec_ids)
                              && ((a.unit_of_measurement == b.unit_of_measurement)
                                  && ((a.units_measured == b.units_measured)
                                      && ((a.debitor == b.debitor)
                                          && ((a.creditor == b.creditor)
                                              && ((a.debitor_profile_id == b.debitor_profile_id)
                                                  && ((a.creditor_profile_id
                                                        == b.creditor_profile_id)
                                                      && ((a.debitor_approval_time
                                                            == b.debitor_approval_time)
                                                          && ((a.creditor_approval_time
                                                            == b.creditor_approval_time)
                                                            && ((a.debitor_rejection_time
                                                            == b.debitor_rejection_time)
                                                            && ((a.creditor_rejection_time
                                                            == b.creditor_rejection_time)
                                                            && ((a.debitor_expiration_time
                                                            == b.debitor_expiration_time)
                                                            && ((a.creditor_expiration_time
                                                            == b.creditor_expiration_time)
                                                            && (a.approvals
                                                            == b.approvals)))))))))))))))))))

  item_beq_sound : (a b : TransactionItem Time) → item_beq a b ≡ true → a ≡ b
  item_beq_sound a b h0 =
      let (p0, h1) = and_split _ _ h0 in
      let (p1, h2) = and_split _ _ h1 in
      let (p2, h3) = and_split _ _ h2 in
      let (p3, h4) = and_split _ _ h3 in
      let (p4, h5) = and_split _ _ h4 in
      let (p5, h6) = and_split _ _ h5 in
      let (p6, h7) = and_split _ _ h6 in
      let (p7, h8) = and_split _ _ h7 in
      let (p8, h9) = and_split _ _ h8 in
      let (p9, h10) = and_split _ _ h9 in
      let (p10, h11) = and_split _ _ h10 in
      let (p11, h12) = and_split _ _ h11 in
      let (p12, h13) = and_split _ _ h12 in
      let (p13, h14) = and_split _ _ h13 in
      let (p14, h15) = and_split _ _ h14 in
      let (p15, h16) = and_split _ _ h15 in
      let (p16, h17) = and_split _ _ h16 in
      let (p17, h18) = and_split _ _ h17 in
      let (p18, h19) = and_split _ _ h18 in
      λ i. record {
        id = eq_of_beq a.id b.id p0 i;
        transaction_id = eq_of_beq a.transaction_id b.transaction_id p1 i;
        item_id = eq_of_beq a.item_id b.item_id p2 i;
        price = eq_of_beq a.price b.price p3 i;
        quantity = eq_of_beq a.quantity b.quantity p4 i;
        rule_instance_id = eq_of_beq a.rule_instance_id b.rule_instance_id p5 i;
        rule_exec_ids = eq_of_beq a.rule_exec_ids b.rule_exec_ids p6 i;
        unit_of_measurement = eq_of_beq a.unit_of_measurement b.unit_of_measurement p7 i;
        units_measured = eq_of_beq a.units_measured b.units_measured p8 i;
        debitor = eq_of_beq a.debitor b.debitor p9 i;
        creditor = eq_of_beq a.creditor b.creditor p10 i;
        debitor_profile_id = eq_of_beq a.debitor_profile_id b.debitor_profile_id p11 i;
        creditor_profile_id = eq_of_beq a.creditor_profile_id b.creditor_profile_id p12 i;
        debitor_approval_time = eq_of_beq a.debitor_approval_time b.debitor_approval_time p13 i;
        creditor_approval_time = eq_of_beq a.creditor_approval_time b.creditor_approval_time p14 i;
        debitor_rejection_time = eq_of_beq a.debitor_rejection_time b.debitor_rejection_time p15 i;
        creditor_rejection_time =
            eq_of_beq a.creditor_rejection_time b.creditor_rejection_time p16 i;
        debitor_expiration_time =
            eq_of_beq a.debitor_expiration_time b.debitor_expiration_time p17 i;
        creditor_expiration_time =
            eq_of_beq a.creditor_expiration_time b.creditor_expiration_time p18 i;
        approvals = eq_of_beq a.approvals b.approvals h19 i;
      }

  item_beq_refl : (a : TransactionItem Time) → item_beq a a ≡ true
  item_beq_refl a = and_join _ _ (beq_refl a.id) (
      and_join _ _ (beq_refl a.transaction_id) (
        and_join _ _ (beq_refl a.item_id) (
          and_join _ _ (beq_refl a.price) (
            and_join _ _ (beq_refl a.quantity) (
              and_join _ _ (beq_refl a.rule_instance_id) (
                and_join _ _ (beq_refl a.rule_exec_ids) (
                  and_join _ _ (beq_refl a.unit_of_measurement) (
                    and_join _ _ (beq_refl a.units_measured) (
                      and_join _ _ (beq_refl a.debitor) (
                        and_join _ _ (beq_refl a.creditor) (
                          and_join _ _ (beq_refl a.debitor_profile_id) (
                            and_join _ _ (beq_refl a.creditor_profile_id) (
                              and_join _ _ (beq_refl a.debitor_approval_time) (
                                and_join _ _ (beq_refl a.creditor_approval_time) (
                                  and_join _ _ (beq_refl a.debitor_rejection_time) (
                                    and_join _ _ (beq_refl a.creditor_rejection_time) (
                                      and_join _ _ (beq_refl a.debitor_expiration_time) (
                                        and_join _ _ (beq_refl a.creditor_expiration_time)
                                          (beq_refl a.approvals)))))))))))))))))))

  pub item_beq_iff : (a b : TransactionItem Time) → (item_beq a b ≡ true) ↔ (a ≡ b)
  item_beq_iff a b = (item_beq_sound a b, λ h. subst (λ c. item_beq a c ≡ true) h (item_beq_refl a))

  instance abbrev pub item_eq : Eq (TransactionItem Time)
  item_eq = record { beq = item_beq; beq_iff = item_beq_iff }
