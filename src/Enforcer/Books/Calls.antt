-- ===== src/Enforcer/Books/Calls.antt =====
-- `EnforceAllocs` of heyp/host-agent/linux-enforcer/enforcer.cc runs to its end.
use heyp_agents.Prelude.Text.{Bytes}
use heyp_agents.Prelude.Maps.{lookup, assign, All-lookup}
use heyp_agents.Prelude.{
  ℕ, Bool, List, [], ◌∷◌, Option, none, some, All, All-both, All-every, ◌≡◌, inl, inr, refl,
  Bool-cases,
}
use heyp_agents.Markers.{FlowMarker}
use heyp_agents.Iptables.Controller.{Status, ok, internal_error}
use heyp_agents.Enforcer.{
  HostEnforcerConfig, FlowAlloc, FlowSys, SysInfo, sys_keys, get_sys_info, get_or_create_sys_info,
  put_sys_info,
}
use heyp_agents.Enforcer.Traffic.{PriorityPtr, Pri, k_hipri, k_lopri, Staging}
use heyp_agents.Enforcer.Early.{
  Env, early_sys, early_alloc, early_allocs, mark_created, set_created, with_created, priority_of,
  learn,
}
use heyp_agents.Enforcer.Allocs.{late_sys, late_allocs}
use heyp_agents.Enforcer.Books.Ids.{Assigns}
use heyp_agents.Enforcer.Books.{
  IsReadySys, HasBooks, IsThere, Fits, early_update-Assigns, early_sys-IsReadySys,
  late_update-Assigns, late_update-IsReady, put-HasBooks, assign-HasBooks, IsThere-assign,
  IsThere-put, IsThere-put_other,
}

-- What a loop over a bundle leaves: the books, every entry that was there, and those of the bundle.
pub record Keeps (bundle : List FlowAlloc) (before : SysInfo) (s : SysInfo × Staging) : Type 0 where
  pub books : HasBooks s.1.next_class_id s.0
  pub kept : (flow : FlowMarker) → IsThere flow before → IsThere flow s.0
  pub there : All (λ a. IsThere a.flow s.0) bundle

early_alloc-Keeps :
    (env : Env) (config : HostEnforcerConfig) (a : FlowAlloc) (info : SysInfo) (st : Staging)
    → Fits env a
    → HasBooks st.next_class_id info
    → (s : SysInfo × Staging) × (early_alloc env config a (info, st) ≡ some s)
      × Keeps (a ∷ []) info s
unfolding early_alloc early_sys
early_alloc-Keeps env config a info st (m, e, h, k) b =
    let r = early_sys config a m (get_or_create_sys_info a.flow info) st in
    (
      (put_sys_info a.flow (r.0) info, r.1),
      rw e refl,
      record {
        books =
            put-HasBooks a.flow (r.0) info _ _ _ (early_update-Assigns config _ _ _ st)
              (early_update-Assigns config _ _ _ _)
              (early_sys-IsReadySys config a m (get_or_create_sys_info a.flow info) st h k) b;
        kept = λ flow t. IsThere-put_other flow a.flow (r.0) info t;
        there = (IsThere-put a.flow (r.0) info, tt);
      },
    )

pub early_allocs-Keeps :
    (env : Env) (config : HostEnforcerConfig) (bundle : List FlowAlloc) (info : SysInfo)
    (st : Staging)
    → All (Fits env) bundle
    → HasBooks st.next_class_id info
    → (s : SysInfo × Staging) × (early_allocs env config bundle (info, st) ≡ some s)
      × Keeps bundle info s
unfolding early_allocs
early_allocs-Keeps env config [] info st f b =
    ((info, st), refl, record { books = b; kept = λ flow t. t; there = tt })
early_allocs-Keeps env config (a ∷ bundle) info st f b =
    let (s, e, k) = early_alloc-Keeps env config a info st f.0 b in
    let (s', e', k') = early_allocs-Keeps env config bundle (s.0) (s.1) f.1 k.books in
    (
      s',
      rw e e',
      record {
        books = k'.books;
        kept = λ flow t. k'.kept flow (k.kept flow t);
        there = (k'.kept a.flow k.there.0, k'.there);
      },
    )

with_created-Ready :
    (pri : Pri) (sys : FlowSys) (n : ℕ)
    → IsReadySys sys
    → IsReadySys (with_created pri sys)
      × Assigns sys.hipri (with_created pri sys).hipri n n
      × Assigns sys.lopri (with_created pri sys).lopri n n
with_created-Ready k_hipri sys n r =
    ((record { named = r.0.named; ports = r.0.ports }, r.1), inl (refl, refl), inl (refl, refl))
with_created-Ready k_lopri sys n r =
    ((r.0, record { named = r.1.named; ports = r.1.ports }), inl (refl, refl), inl (refl, refl))

-- A step that keeps the books and every entry.
pub record Holds (n : ℕ) (before after : SysInfo) : Type 0 where
  pub books : HasBooks n after
  pub kept : (flow : FlowMarker) → IsThere flow before → IsThere flow after

set_created-Holds :
    (found : Bytes → Bool) (ptr : PriorityPtr) (n : ℕ) (info : SysInfo) (o : Option FlowSys)
    → lookup ptr.flow info ≡ o
    → HasBooks n info
    → Holds n info (set_created found ptr o info)
set_created-Holds found ptr n info none q b = record { books = b; kept = λ flow t. t }
set_created-Holds found ptr n info (some sys) q b =
    elim (Bool-cases (found (priority_of ptr.pri sys).class_id)) [
      | inr e ↦ rw e (record { books = b; kept = λ flow t. t })
      | inl e ↦
          let (r, hi, lo) =
            with_created-Ready ptr.pri sys n (All-lookup IsReadySys ptr.flow sys info q b.ready) in
          rw e (record {
            books = assign-HasBooks ptr.flow sys (with_created ptr.pri sys) info n n n q hi lo r b;
            kept = λ flow t. IsThere-assign flow ptr.flow (with_created ptr.pri sys) info t;
          })
    ]

mark_created-Holds :
    (found : Bytes → Bool) (ptrs : List PriorityPtr) (n : ℕ) (info : SysInfo)
    → HasBooks n info
    → Holds n info (mark_created found ptrs info)
unfolding mark_created
mark_created-Holds found [] n info b = record { books = b; kept = λ flow t. t }
mark_created-Holds found (ptr ∷ ptrs) n info b =
    let one = set_created-Holds found ptr n info _ refl b in
    let rest =
      mark_created-Holds found ptrs n (set_created found ptr (lookup ptr.flow info) info)
        one.books in
    record { books = rest.books; kept = λ flow t. rest.kept flow (one.kept flow t) }

pub learn-Holds :
    (st show : Status) (raw_out : Bytes) (ptrs : List PriorityPtr) (n : ℕ) (info : SysInfo)
    → HasBooks n info
    → Holds n info (learn st show raw_out ptrs info)
learn-Holds ok show raw_out ptrs n info b = mark_created-Holds _ ptrs n info b
learn-Holds (internal_error m) ok raw_out ptrs n info b = mark_created-Holds _ ptrs n info b
learn-Holds (internal_error m) (internal_error m') raw_out ptrs n info b = record {
  books = b;
  kept = λ flow t. t;
}

pub late_allocs-Keeps :
    (config : HostEnforcerConfig) (bundle : List FlowAlloc) (info : SysInfo) (st : Staging)
    → All (λ a. IsThere a.flow info) bundle
    → HasBooks st.next_class_id info
    → (s : SysInfo × Staging) × (late_allocs config bundle (info, st) ≡ some s)
      × HasBooks s.1.next_class_id s.0
unfolding late_allocs get_sys_info late_sys
late_allocs-Keeps config [] info st t b = ((info, st), refl, b)
late_allocs-Keeps config (a ∷ bundle) info st ((sys, q), t) b =
    let r = late_sys config sys st in
    let ready = All-lookup IsReadySys a.flow sys info q b.ready in
    let (s, e, k) =
      late_allocs-Keeps config bundle (assign a.flow (r.0) info) (r.1)
        (All-both (λ x. IsThere x.flow info) (λ x. Unit {0})
          (λ x. IsThere x.flow (assign a.flow (r.0) info)) bundle
          (λ x p _. IsThere-assign x.flow a.flow (r.0) info p) t
          (All-every (λ x. Unit {0}) bundle (λ x. tt)))
        (assign-HasBooks a.flow sys (r.0) info _ _ _ q (late_update-Assigns config sys.hipri st)
          (late_update-Assigns config sys.lopri _)
          (
            late_update-IsReady config sys.hipri st ready.0,
            late_update-IsReady config sys.lopri _ ready.1,
          )
          b) in
    (s, rw q e, k)
