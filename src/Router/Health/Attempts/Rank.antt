-- ===== src/Router/Health/Attempts/Rank.antt =====
-- backend/internal/router/health.go: the tier of a vendor after a report.
use songguo.Prelude.{
  ℕ, ◌+◌, ◌≤◌, ◌<◌, ◌≡◌, ◌≢◌, refl, ◌⊎◌, inl, inr, true, false, Option, some, List, [], ◌∷◌, String,
  arith, if◌then◌else◌, str_eq, eq_iff, subst, sym,
}
use songguo.Prelude.Map.{lookup-insert}
use songguo.Config.{Vendor}
use songguo.Config.Snapshot.{Snapshot}
use songguo.Router.Health.{
  Knobs, VendorHealth, Signal, ok, fail_credential, is_cooling, demote, streak, fold_failure,
  fold_report, fold_client_fail, is_seen,
}
use songguo.Router.Health.Attempts.{
  State, Attempt, Tier, live, cooling, health_of, store_report, apply_report, apply_client_fail,
  sharing, vendors_sharing, concerned, logged, report_all, report_signal, report_attempt,
  health_rank,
}
use songguo.Router.Health.Ladder.{IsValid, demote_until, le-mul-pow}

pub rank_of : VendorHealth → ℕ → Tier
rank_of h now = if h.dead then Tier.dead else if is_cooling h now then cooling else live

pub health_rank_lem :
    (s : State) (name : String) (now : ℕ) → health_rank s name now ≡ rank_of (health_of s name) now
unfolding health_rank health_of rank_of is_cooling
health_rank_lem s name now = ground arith

pub health_of-apply_report :
    (k : Knobs) (s : State) (name j : String) (sig : Signal) (now : ℕ)
    → health_of (apply_report k s name sig now).0 j
      ≡ (if str_eq name j then (fold_report k sig (health_of s name) now).0 else health_of s j)
unfolding apply_report store_report health_of
health_of-apply_report k s name j sig now = ground (
  arith,
  eq_iff name j,
  lookup-insert name j (fold_report k sig (unfold health_of in health_of s name) now).0 s.health,
)

pub health_of-apply_client_fail :
    (k : Knobs) (s : State) (name j session : String) (now : ℕ)
    → health_of (apply_client_fail k s name session now).0 j ≡ (
        if str_eq name j
        then (fold_client_fail k session (health_of s name) now).0
        else health_of s j)
unfolding apply_client_fail store_report health_of
health_of-apply_client_fail k s name j session now = ground (
  arith,
  eq_iff name j,
  lookup-insert name j (fold_client_fail k session (unfold health_of in health_of s name) now).0
      s.health,
)

-- A cooldown is open until at least `until`.
abbrev pub DownUntil : ℕ → VendorHealth → Type 0
DownUntil until h = until ≤ h.open_until

DownUntil-rank :
    (until later : ℕ) (h : VendorHealth)
    → DownUntil until h
    → later < until
    → rank_of h later ≢ live
unfolding rank_of is_cooling
DownUntil-rank until later h d l = ground arith

demote-DownUntil :
    (k : Knobs) (h : VendorHealth) (now : ℕ)
    → IsValid k
    → DownUntil (now + k.cooldown) (demote k h now).0
demote-DownUntil k h now v =
    omega (arith, demote_until k h now v, le-mul-pow k.cooldown h.demotions, v.ordered)

-- One conclusive failure opens a cooldown on any vendor.
conclusive-DownUntil :
    (k : Knobs) (h : VendorHealth) (now : ℕ)
    → IsValid k
    → DownUntil (now + k.cooldown) (fold_report k fail_credential h now).0
unfolding fold_report fold_failure streak
conclusive-DownUntil k h now v = ground (
  arith,
  demote-DownUntil k (record h { consec_fail = k.fail_threshold }) now v,
  demote-DownUntil k (record h { consec_fail = h.consec_fail + 1 }) now v,
)

text_ne : (s t : String) → s ≢ t → str_eq s t ≡ false
text_ne s t n = ground (arith, eq_iff s t)

ok-rank :
    (k : Knobs) (h : VendorHealth) (now later : ℕ) → rank_of (fold_report k ok h now).0 later ≡ live
unfolding rank_of fold_report is_cooling
ok-rank k h now later = refl

report_all-DownUntil :
    (k : Knobs) (s : State) (names : List String) (j : String) (now : ℕ)
    → IsValid k
    → (is_seen j names ≡ true) ⊎ DownUntil (now + k.cooldown) (health_of s j)
    → DownUntil (now + k.cooldown) (health_of (report_all k s names fail_credential now).0 j)
unfolding report_all logged
report_all-DownUntil k s [] j now v (inl h) = cc
report_all-DownUntil k s [] j now v (inr h) = h
report_all-DownUntil k s (x ∷ xs) j now v h =
    report_all-DownUntil k (apply_report k s x fail_credential now).0 xs j now v (
      ground (
        arith,
        conclusive-DownUntil k (health_of s x) now v,
        conclusive-DownUntil k (health_of s j) now v,
        health_of-apply_report k s x j fail_credential now,
        h,
      ))

-- The vendor is one of the list.
abbrev pub IsAmong : Vendor → List Vendor → Type 0
IsAmong v [] = ⊥
IsAmong v (x ∷ xs) = (v ≡ x) ⊎ IsAmong v xs

seen_by_sharing :
    (credential observed : String) (v : Vendor) (vs : List Vendor)
    → IsAmong v vs
    → v.credential.id ≡ credential
    → is_seen v.name (observed ∷ sharing credential observed vs) ≡ true
unfolding sharing
seen_by_sharing credential observed v [] m e = absurd m
seen_by_sharing credential observed v (x ∷ xs) (inl p) e =
    subst (λ y. is_seen y.name (observed ∷ sharing credential observed (x ∷ xs)) ≡ true) (sym p)
      (ground (
        arith,
        eq_iff x.credential.id credential,
        subst (λ y. y.credential.id ≡ credential) p e,
        eq_iff x.name observed,
        eq_iff observed x.name,
        eq_iff x.name x.name,
      ))
seen_by_sharing credential observed v (x ∷ xs) (inr m) e =
    ground (arith, seen_by_sharing credential observed v xs m e)

-- A rejected credential takes down, for at least the base cooldown, every vendor of the snapshot
-- that presents it, whichever of them observed the rejection.
pub credential_down :
    (k : Knobs) (snap : Snapshot) (s : State) (a : Attempt) (v : Vendor) (now later : ℕ)
    → IsValid k
    → a.vendor ≢ ""
    → a.credential ≢ ""
    → IsAmong v snap.vendors
    → v.credential.id ≡ a.credential
    → later < now + k.cooldown
    → health_rank (report_attempt k (some snap) s a fail_credential now).0 v.name later ≢ live
unfolding report_attempt report_signal concerned vendors_sharing
credential_down k snap s a v now later p n c m e l =
    rw
      (
        health_rank_lem,
        text_ne a.vendor "" n,
        report_attempt,
        report_signal,
        text_ne a.credential "" c,
      )
      (DownUntil-rank (now + k.cooldown) later _
        (report_all-DownUntil k s (a.vendor ∷ sharing a.credential a.vendor snap.vendors) v.name now
          p (inl (seen_by_sharing a.credential a.vendor v snap.vendors m e)))
        l)

-- A success puts the vendor that served back into the live tier, whatever was held against it, and
-- for good until the next report.
pub ok_restores :
    (k : Knobs) (snap : Option Snapshot) (s : State) (a : Attempt) (now later : ℕ)
    → a.vendor ≢ ""
    → health_rank (report_attempt k snap s a ok now).0 a.vendor later ≡ live
unfolding report_attempt report_signal concerned report_all logged
ok_restores k snap s a now later n =
    rw (health_rank_lem, text_ne a.vendor "" n, report_attempt)
      (ground (
        arith,
        eq_iff a.vendor a.vendor,
        health_of-apply_report k s a.vendor a.vendor ok now,
        ok-rank k (health_of s a.vendor) now later,
      ))
