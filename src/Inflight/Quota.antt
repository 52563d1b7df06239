-- ===== src/Inflight/Quota.antt =====
-- inflight.go: the bounds of the send quota and of the receive quota.
use mqtt_server.Prelude.{arith}
use mqtt_server.Prelude.Int.{ℤ, pos, ◌+ℤ◌, ◌-ℤ◌, ◌≤ℤ◌}
use mqtt_server.Prelude.Maps.{nat_eq}
use mqtt_server.Inflight.{
  Inflight, clone, reconcile_send_quota_cap, recover_starved_send_quota, reset_send_quota_if_empty,
  decrease_receive_quota, increase_receive_quota, reset_receive_quota, decrease_send_quota,
  increase_send_quota, reset_send_quota,
}

pub record QuotaOk (i : Inflight) : Type 0 where
  pub send_low : pos 0 ≤ℤ i.send_quota
  pub send_high : i.send_quota ≤ℤ i.maximum_send_quota
  pub receive_low : pos 0 ≤ℤ i.receive_quota
  pub receive_high : i.receive_quota ≤ℤ i.maximum_receive_quota

module _ (i : Inflight) (ok : QuotaOk i) where
  pub decrease_send_quota-QuotaOk : QuotaOk (decrease_send_quota i).0
  unfolding decrease_send_quota ◌-ℤ◌
  decrease_send_quota-QuotaOk = ground arith

  pub increase_send_quota-QuotaOk : QuotaOk (increase_send_quota i).0
  unfolding increase_send_quota ◌+ℤ◌
  increase_send_quota-QuotaOk = ground arith

  pub decrease_receive_quota-QuotaOk : QuotaOk (decrease_receive_quota i).0
  unfolding decrease_receive_quota ◌-ℤ◌
  decrease_receive_quota-QuotaOk = ground arith

  pub increase_receive_quota-QuotaOk : QuotaOk (increase_receive_quota i).0
  unfolding increase_receive_quota ◌+ℤ◌
  increase_receive_quota-QuotaOk = ground arith

  pub clone-QuotaOk : QuotaOk (clone i)
  unfolding clone ◌-ℤ◌
  clone-QuotaOk = ground arith

  pub reconcile-QuotaOk : (max : ℤ) → QuotaOk (reconcile_send_quota_cap i max)
  unfolding reconcile_send_quota_cap ◌-ℤ◌
  reconcile-QuotaOk max = ground arith

  pub reset_send_quota-QuotaOk : (n : ℤ) → pos 0 ≤ℤ n → QuotaOk (reset_send_quota i n)
  unfolding reset_send_quota
  reset_send_quota-QuotaOk n h = ground arith

  pub reset_receive_quota-QuotaOk : (n : ℤ) → pos 0 ≤ℤ n → QuotaOk (reset_receive_quota i n)
  unfolding reset_receive_quota
  reset_receive_quota-QuotaOk n h = ground arith

  pub recover-QuotaOk : QuotaOk (recover_starved_send_quota i).0
  unfolding recover_starved_send_quota
  recover-QuotaOk = ground arith

  pub reset_if_empty-QuotaOk : QuotaOk (reset_send_quota_if_empty i).0
  unfolding reset_send_quota_if_empty
  reset_if_empty-QuotaOk = ground arith
