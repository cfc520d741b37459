-- ===== src/Secrets/Markers.antt =====
-- The keys of the markers of freenet-migrate/src/delegate.rs: reserved, and different where the code
-- takes them to be.
use freenet_migrate.Prelude.{
  ℕ, ◌≡◌, refl, true, false, Bytes, list_beq, list_beq_iff, nat_eq, inl, inr, Bool-cases,
}
use freenet_migrate.Journal.{DelegateKey}
use freenet_migrate.Secrets.{is_marker, wip_marker, done_marker, pred_wip_marker, pred_done_marker}

pub pred_done_marker-reserved : (p : DelegateKey) → is_marker (pred_done_marker p) ≡ true
unfolding is_marker pred_done_marker
pred_done_marker-reserved p = refl

pub pred_wip_marker-reserved : (p : DelegateKey) → is_marker (pred_wip_marker p) ≡ true
unfolding is_marker pred_wip_marker
pred_wip_marker-reserved p = refl

pub done_marker-reserved : (g : ℕ) → is_marker (done_marker g) ≡ true
unfolding is_marker done_marker
done_marker-reserved g = refl

pub wip_marker-reserved : (g : ℕ) → is_marker (wip_marker g) ≡ true
unfolding is_marker wip_marker
wip_marker-reserved g = refl

pub pred_wip-ne-pred_done :
    (p q : DelegateKey) → list_beq (pred_wip_marker p) (pred_done_marker q) ≡ false
unfolding pred_wip_marker pred_done_marker
pred_wip-ne-pred_done p q = refl

pub pred_done-ne-pred_wip :
    (p q : DelegateKey) → list_beq (pred_done_marker p) (pred_wip_marker q) ≡ false
unfolding pred_wip_marker pred_done_marker
pred_done-ne-pred_wip p q = refl

pub wip-ne-done : (g h : ℕ) → list_beq (wip_marker g) (done_marker h) ≡ false
unfolding wip_marker done_marker
wip-ne-done g h = refl

pub pred_done-ne-done :
    (p : DelegateKey) (g : ℕ) → list_beq (pred_done_marker p) (done_marker g) ≡ false
unfolding pred_done_marker done_marker
pred_done-ne-done p g = refl

pub pred_wip-ne-done :
    (p : DelegateKey) (g : ℕ) → list_beq (pred_wip_marker p) (done_marker g) ≡ false
unfolding pred_wip_marker done_marker
pred_wip-ne-done p g = refl

-- Markers of two predecessors are the same only if their keys are.
pub pred_done_marker-beq :
    (p q : DelegateKey) → list_beq (pred_done_marker p) (pred_done_marker q) ≡ list_beq p.key q.key
unfolding pred_done_marker
pred_done_marker-beq p q = refl

pub pred_wip_marker-beq :
    (p q : DelegateKey) → list_beq (pred_wip_marker p) (pred_wip_marker q) ≡ list_beq p.key q.key
unfolding pred_wip_marker
pred_wip_marker-beq p q = refl

-- A key that is not reserved is no marker.
pub reserved-ne : (j k : Bytes) → is_marker j ≡ true → is_marker k ≡ false → list_beq j k ≡ false
reserved-ne j k h m = elim (Bool-cases (list_beq j k)) [
  | inl same ↦ let e : j ≡ k = (list_beq_iff j k).0 same in cc
  | inr other ↦ other
]
