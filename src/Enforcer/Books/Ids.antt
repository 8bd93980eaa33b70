-- ===== src/Enforcer/Books/Ids.antt =====
-- How heyp/host-agent/linux-enforcer/enforcer.cc numbers its classes.
use heyp_agents.Prelude.Text.{Bytes, bytes_eq, bytes_eq_iff, decimal-injective}
use heyp_agents.Prelude.Maps.{lookup, assign, lookup-common, total-assign, total-assign_new}
use heyp_agents.Prelude.{
  ℕ, ◌+◌, ◌^◌, ◌≤◌, true, false, [], some, total, ap, if◌then◌else◌, ◌≡◌, ◌⊎◌, inl, inr, refl,
  arith, Option-cases,
}
use heyp_agents.Markers.{FlowMarker, is_blank, is_same_flow}
use heyp_agents.Markers.Laws.{marker_keys}
use heyp_agents.Enforcer.{
  Priority, FlowSys, SysInfo, sys_keys, get_or_create_sys_info, put_sys_info,
}
use heyp_agents.Enforcer.Traffic.{class_name}

abbrev pub class_uses : Bytes → Priority → ℕ
class_uses x p = if bytes_eq p.class_id x then 1 else 0

abbrev pub sys_uses : Bytes → FlowSys → ℕ
sys_uses x sys = class_uses x sys.hipri + class_uses x sys.lopri

-- How many of all priorities have a class id.
abbrev pub uses : Bytes → SysInfo → ℕ
uses x info = total (λ e. sys_uses x e.1) info

-- Up to 2^31 classes, which an `int32_t` counts: no two priorities have one class id, and none has
-- an id that is yet to be given out.
pub record HasIds (next : ℕ) (u : Bytes → ℕ) : Type 0 where
  pub once : next ≤ 2 ^ 31 → (x : Bytes) → is_blank x ≡ false → u x ≤ 1
  pub fresh : next ≤ 2 ^ 31 → (n : ℕ) → next ≤ n → n ≤ 2 ^ 31 → u (class_name n) ≡ 0

-- A priority keeps its class id, or gets the next one where it had none.
abbrev pub Assigns : Priority → Priority → ℕ → ℕ → Type 0
Assigns p p' n n' =
    ((p'.class_id ≡ p.class_id) × (n' ≡ n))
    ⊎ ((is_blank p.class_id ≡ true) × (p'.class_id ≡ class_name n) × (n' ≡ n + 1))

class_name-injective : (m n : ℕ) → m ≤ 2 ^ 31 → n ≤ 2 ^ 31 → class_name m ≡ class_name n → m ≡ n
class_name-injective m n h k q =
    decimal-injective m n (omega arith) (omega arith) (ground (arith, q))

blank_uses :
    (p : Priority) (x : Bytes)
    → is_blank p.class_id ≡ true
    → is_blank x ≡ false
    → class_uses x p ≡ 0
blank_uses p x h k = ground (arith, bytes_eq_iff p.class_id x)

same_uses :
    (p p' : Priority) (x : Bytes) → p'.class_id ≡ p.class_id → class_uses x p' ≡ class_uses x p
same_uses p p' x h = ap (λ (c : Bytes). if bytes_eq c x then 1 else 0) h

pub Assigns-HasIds :
    (p p' : Priority) (n n' : ℕ) (u u' : Bytes → ℕ)
    → Assigns p p' n n'
    → HasIds n u
    → ((x : Bytes) → is_blank x ≡ false → u' x + class_uses x p ≡ u x + class_uses x p')
    → HasIds n' u'
Assigns-HasIds p p' n n' u u' (inl a) h e = record {
  once = λ k x b. ground (arith, e x b, h.once (omega (arith, a.1)) x b, same_uses p p' x a.0);
  fresh = λ k m l b. ground (
    arith,
    e (class_name m) refl,
    h.fresh (omega (arith, a.1)) m (omega (arith, a.1)) b,
    same_uses p p' (class_name m) a.0,
  );
}
Assigns-HasIds p p' n n' u u' (inr a) h e = record {
  once = λ k x b. ground (
    arith,
    e x b,
    h.once (omega (arith, a.2)) x b,
    h.fresh (omega (arith, a.2)) n,
    bytes_eq_iff p'.class_id x,
    ap u a.1,
    blank_uses p x a.0 b,
  );
  fresh = λ k m l b. ground (
    arith,
    e (class_name m) refl,
    h.fresh (omega (arith, a.2)) m,
    bytes_eq_iff p'.class_id (class_name m),
    class_name-injective n m,
    blank_uses p (class_name m) a.0 refl,
  );
}

-- Where an entry is written, the uses change by those of the entry.
pub uses-assign :
    (x : Bytes) (flow : FlowMarker) (old sys : FlowSys) (info : SysInfo)
    → lookup flow info ≡ some old
    → uses x (assign flow sys info) + sys_uses x old ≡ uses x info + sys_uses x sys
uses-assign x flow old sys info h = total-assign (sys_uses x) flow sys old info h

same_key : (flow : FlowMarker) → sys_keys.eq flow (record flow { job = [] }) ≡ true
unfolding sys_keys marker_keys is_same_flow
same_key flow = ground (
  arith,
  bytes_eq_iff flow.src_dc flow.src_dc,
  bytes_eq_iff flow.dst_dc flow.dst_dc,
  bytes_eq_iff flow.src_addr flow.src_addr,
  bytes_eq_iff flow.dst_addr flow.dst_addr,
)

-- The entry of a flow is that of the flow without its job.
pub lookup-no_job :
    (flow : FlowMarker) (info : SysInfo) → lookup flow info ≡ lookup (record flow { job = [] }) info
lookup-no_job flow info = lookup-common flow (record flow { job = [] }) info (same_key flow)

pub uses-put :
    (x : Bytes) (flow : FlowMarker) (sys : FlowSys) (info : SysInfo)
    → is_blank x ≡ false
    → uses x (put_sys_info flow sys info) + sys_uses x (get_or_create_sys_info flow info)
      ≡ uses x info + sys_uses x sys
unfolding put_sys_info get_or_create_sys_info
uses-put x flow sys info h = elim (Option-cases (lookup (record flow { job = [] }) info)) [
  | inl q ↦ ground (
    arith,
    lookup-no_job flow info,
    bytes_eq_iff [] x,
    total-assign_new (sys_uses x) (record flow { job = [] }) sys info q,
  )
  | inr (old, q) ↦ ground (
    arith,
    lookup-no_job flow info,
    total-assign (sys_uses x) (record flow { job = [] }) sys old info q,
  )
]

-- One entry whose two priorities each keep or get an id; `w s` are the uses once it is `s`.
pub Sys-HasIds :
    (old sys : FlowSys) (n n1 n' : ℕ) (u : Bytes → ℕ) (w : FlowSys → Bytes → ℕ)
    → ((s : FlowSys) (x : Bytes) → is_blank x ≡ false → w s x + sys_uses x old ≡ u x + sys_uses x s)
    → Assigns old.hipri sys.hipri n n1
    → Assigns old.lopri sys.lopri n1 n'
    → HasIds n u
    → HasIds n' (w sys)
Sys-HasIds old sys n n1 n' u w e a b h =
    let mid : FlowSys = record { hipri = sys.hipri; lopri = old.lopri } in
    let half =
      Assigns-HasIds old.hipri sys.hipri n n1 u (w mid) a h (λ x q. omega (arith, e mid x q)) in
    Assigns-HasIds old.lopri sys.lopri n1 n' (w mid) (w sys) b half
      (λ x q. omega (arith, e mid x q, e sys x q))
