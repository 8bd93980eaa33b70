-- ===== src/FastAggregator/Exchange.antt =====
-- The two buffers of a shard of heyp/cluster-agent/fast-aggregator.cc under any interleaving.
use heyp_agents.Prelude.{
  ℕ, zero, suc, Bool, true, false, not, List, [], ◌∷◌, ◌++◌, Option, none, some, ◌≡◌, refl, ap, sym,
  ◌∙◌, arith,
}
use mathlib.Core.List.{append-nil, append_assoc}
use heyp_agents.FastAggregator.{
  InfoShard, Entry, an_info, a_gen, Holder, Phase, loads, clears_gens, clears_infos, exchanges,
  reads, Shard, Step, acquires, goes_on, collects, push, buffer, set_buffer, join, acquire, go_on,
  collect, step, run, new_shard, push_next, keep,
}

abbrev fields :
    InfoShard → InfoShard → Option Bool → List Holder → Phase → InfoShard → InfoShard → Shard
fields b0 b1 a hs p col wr = record {
  buffer0 = b0;
  buffer1 = b1;
  active_id = a;
  holders = hs;
  phase = p;
  collected = col;
  written = wr;
}

join-push : (s t : InfoShard) (e : Entry) → join s (push t e) ≡ push (join s t) e
join-push s t (an_info i) =
    ap (λ l. record { gens = s.gens ++ t.gens; infos = l })
      (sym (append_assoc s.infos t.infos (i ∷ [])))
join-push s t (a_gen g) =
    ap (λ l. record { gens = l; infos = s.infos ++ t.infos })
      (sym (append_assoc s.gens t.gens (g ∷ [])))

join-empty : (s t : InfoShard) → t.gens ≡ [] → t.infos ≡ [] → join s t ≡ s
join-empty s t g i = ground (arith, append-nil s.gens, append-nil s.infos, g, i)

-- Either nobody writes and the buffer is the active one, or one update does and to this buffer.
abbrev pub IsCurrent : Bool → Option Bool → List Holder → Type 0
IsCurrent b (some c) [] = c ≡ b
IsCurrent b none (h ∷ []) = h.cur_id ≡ b
IsCurrent b (some c) (h ∷ hs) = true ≡ false
IsCurrent b none [] = true ≡ false
IsCurrent b none (h ∷ h' ∷ hs) = true ≡ false

abbrev either : Bool → InfoShard → InfoShard → InfoShard
either false b0 b1 = b0
either true b0 b1 = b1

-- What was written is what was collected, and then what the buffers hold.
abbrev AddsUpTo : Phase → Bool → InfoShard → InfoShard → InfoShard → InfoShard → Type 0
AddsUpTo loads b b0 b1 col wr = join col (either b b0 b1) ≡ wr
AddsUpTo (clears_gens c) b b0 b1 col wr = (c ≡ b) × (join col (either b b0 b1) ≡ wr)
AddsUpTo (clears_infos c) b b0 b1 col wr =
    (c ≡ b) × (join col (either b b0 b1) ≡ wr) × ((either b b1 b0).gens ≡ [])
AddsUpTo (exchanges c) b b0 b1 col wr =
    (c ≡ b)
    × (join col (either b b0 b1) ≡ wr)
    × ((either b b1 b0).gens ≡ [])
    × ((either b b1 b0).infos ≡ [])
AddsUpTo (reads c) b b0 b1 col wr =
    (not c ≡ b) × (join (join col (either c b0 b1)) (either b b0 b1) ≡ wr)

abbrev pub AddsUp : Phase → Bool → Shard → Type 0
AddsUp p b s = AddsUpTo p b s.buffer0 s.buffer1 s.collected s.written

abbrev pub IsBalanced : Shard → Type 0
IsBalanced s = (b : Bool) × IsCurrent b s.active_id s.holders × AddsUp s.phase b s

-- A push to the current buffer.
push-AddsUp :
    (b c : Bool) (s : Shard) (p : Phase) (e : Entry)
    → c ≡ b
    → AddsUp p b s
    → AddsUp p b (set_buffer c (push (buffer c s) e) (record s { written = push s.written e }))
push-AddsUp true false s p e q h = ground arith
push-AddsUp false true s p e q h = ground arith
push-AddsUp false false s loads e q h = join-push s.collected s.buffer0 e ∙ ap (λ w. push w e) h
push-AddsUp true true s loads e q h = join-push s.collected s.buffer1 e ∙ ap (λ w. push w e) h
push-AddsUp false false s (clears_gens c) e q h =
    (h.0, join-push s.collected s.buffer0 e ∙ ap (λ w. push w e) h.1)
push-AddsUp true true s (clears_gens c) e q h =
    (h.0, join-push s.collected s.buffer1 e ∙ ap (λ w. push w e) h.1)
push-AddsUp false false s (clears_infos c) e q h =
    (h.0, join-push s.collected s.buffer0 e ∙ ap (λ w. push w e) h.1, h.2)
push-AddsUp true true s (clears_infos c) e q h =
    (h.0, join-push s.collected s.buffer1 e ∙ ap (λ w. push w e) h.1, h.2)
push-AddsUp false false s (exchanges c) e q h =
    (h.0, join-push s.collected s.buffer0 e ∙ ap (λ w. push w e) h.1, h.2, h.3)
push-AddsUp true true s (exchanges c) e q h =
    (h.0, join-push s.collected s.buffer1 e ∙ ap (λ w. push w e) h.1, h.2, h.3)
push-AddsUp false false s (reads true) e q h =
    (h.0, join-push (join s.collected s.buffer1) s.buffer0 e ∙ ap (λ w. push w e) h.1)
push-AddsUp false false s (reads false) e q h = ground arith
push-AddsUp true true s (reads false) e q h =
    (h.0, join-push (join s.collected s.buffer0) s.buffer1 e ∙ ap (λ w. push w e) h.1)
push-AddsUp true true s (reads true) e q h = ground arith

acquire-IsBalanced :
    (c b : Bool) (es : List Entry) (a : Option Bool) (hs : List Holder) (p : Phase)
    (b0 b1 col wr : InfoShard)
    → IsCurrent b a hs
    → AddsUp p b (fields b0 b1 a hs p col wr)
    → IsBalanced (acquire c es (fields b0 b1 a hs p col wr))
unfolding acquire
acquire-IsBalanced c b es none hs p b0 b1 col wr k h = (b, k, h)
acquire-IsBalanced c b es (some x) (y ∷ hs) p b0 b1 col wr k h = ground arith
acquire-IsBalanced true b es (some true) [] p b0 b1 col wr k h = (b, k, h)
acquire-IsBalanced true b es (some false) [] p b0 b1 col wr k h = (b, k, h)
acquire-IsBalanced false b es (some true) [] p b0 b1 col wr k h = (b, k, h)
acquire-IsBalanced false b es (some false) [] p b0 b1 col wr k h = (b, k, h)

push_next-IsBalanced :
    (b c : Bool) (es : List Entry) (hs : List Holder) (p : Phase) (b0 b1 col wr : InfoShard)
    → c ≡ b
    → AddsUpTo p b b0 b1 col wr
    → IsBalanced (
        let r = push_next c es (fields b0 b1 none hs p col wr) in
        record (r.0) { holders = keep (r.1) [] })
push_next-IsBalanced b c [] hs p b0 b1 col wr k h = (b, k, h)
push_next-IsBalanced true false (e ∷ es) hs p b0 b1 col wr k h = ground arith
push_next-IsBalanced false true (e ∷ es) hs p b0 b1 col wr k h = ground arith
push_next-IsBalanced false false (e ∷ es) hs p b0 b1 col wr k h =
    (false, k, push-AddsUp false false (fields b0 b1 none hs p col wr) p e k h)
push_next-IsBalanced true true (e ∷ es) hs p b0 b1 col wr k h =
    (true, k, push-AddsUp true true (fields b0 b1 none hs p col wr) p e k h)

go_on-IsBalanced :
    (n : ℕ) (b : Bool) (a : Option Bool) (hs : List Holder) (p : Phase) (b0 b1 col wr : InfoShard)
    → IsCurrent b a hs
    → AddsUpTo p b b0 b1 col wr
    → IsBalanced (step (goes_on n) (fields b0 b1 a hs p col wr))
unfolding step go_on
go_on-IsBalanced n b a [] p b0 b1 col wr k h = (b, k, h)
go_on-IsBalanced n b (some x) (y ∷ hs) p b0 b1 col wr k h = ground arith
go_on-IsBalanced n b none (y ∷ y' ∷ hs) p b0 b1 col wr k h = ground arith
go_on-IsBalanced (suc n) b none (y ∷ []) p b0 b1 col wr k h = (b, k, h)
go_on-IsBalanced zero b none (y ∷ []) p b0 b1 col wr k h =
    push_next-IsBalanced b y.cur_id y.left (y ∷ []) p b0 b1 col wr k h

collect-IsBalanced :
    (p : Phase) (b : Bool) (a : Option Bool) (hs : List Holder) (b0 b1 col wr : InfoShard)
    → IsCurrent b a hs
    → AddsUpTo p b b0 b1 col wr
    → IsBalanced (collect p (fields b0 b1 a hs p col wr))
unfolding collect
collect-IsBalanced loads b none hs b0 b1 col wr k h = (b, k, h)
collect-IsBalanced loads b (some c) [] b0 b1 col wr k h = (b, k, (k, h))
collect-IsBalanced loads b (some c) (x ∷ hs) b0 b1 col wr k h = ground arith
collect-IsBalanced (clears_gens true) true a hs b0 b1 col wr k h = (true, k, (h.0, h.1, refl))
collect-IsBalanced (clears_gens false) false a hs b0 b1 col wr k h = (false, k, (h.0, h.1, refl))
collect-IsBalanced (clears_gens true) false a hs b0 b1 col wr k h = ground arith
collect-IsBalanced (clears_gens false) true a hs b0 b1 col wr k h = ground arith
collect-IsBalanced (clears_infos true) true a hs b0 b1 col wr k h = (true, k, (h.0, h.1, h.2, refl))
collect-IsBalanced (clears_infos false) false a hs b0 b1 col wr k h =
    (false, k, (h.0, h.1, h.2, refl))
collect-IsBalanced (clears_infos true) false a hs b0 b1 col wr k h = ground arith
collect-IsBalanced (clears_infos false) true a hs b0 b1 col wr k h = ground arith
collect-IsBalanced (exchanges c) b none hs b0 b1 col wr k h = (b, k, h.1)
collect-IsBalanced (exchanges c) b (some x) (y ∷ hs) b0 b1 col wr k h = ground arith
collect-IsBalanced (exchanges true) true (some false) [] b0 b1 col wr k h = ground arith
collect-IsBalanced (exchanges false) false (some true) [] b0 b1 col wr k h = ground arith
collect-IsBalanced (exchanges true) false (some x) [] b0 b1 col wr k h = ground arith
collect-IsBalanced (exchanges false) true (some x) [] b0 b1 col wr k h = ground arith
collect-IsBalanced (exchanges true) true (some true) [] b0 b1 col wr k h =
    (false, refl, (refl, join-empty (join col b1) b0 h.2 h.3 ∙ h.1))
collect-IsBalanced (exchanges false) false (some false) [] b0 b1 col wr k h =
    (true, refl, (refl, join-empty (join col b0) b1 h.2 h.3 ∙ h.1))
collect-IsBalanced (reads true) false a hs b0 b1 col wr k h = (false, k, h.1)
collect-IsBalanced (reads false) true a hs b0 b1 col wr k h = (true, k, h.1)
collect-IsBalanced (reads true) true a hs b0 b1 col wr k h = ground arith
collect-IsBalanced (reads false) false a hs b0 b1 col wr k h = ground arith

step-IsBalanced : (x : Step) (s : Shard) → IsBalanced s → IsBalanced (step x s)
unfolding step
step-IsBalanced (acquires c es) s h =
    acquire-IsBalanced c h.0 es s.active_id s.holders s.phase s.buffer0 s.buffer1 s.collected
      s.written h.1 h.2
step-IsBalanced (goes_on n) s h =
    go_on-IsBalanced n h.0 s.active_id s.holders s.phase s.buffer0 s.buffer1 s.collected s.written
      h.1 h.2
step-IsBalanced collects s h =
    collect-IsBalanced s.phase h.0 s.active_id s.holders s.buffer0 s.buffer1 s.collected s.written
      h.1 h.2

run-from : (xs : List Step) (s : Shard) → IsBalanced s → IsBalanced (run xs s)
unfolding run
run-from [] s h = h
run-from (x ∷ xs) s h = run-from xs (step x s) (step-IsBalanced x s h)

-- Whatever steps updates and the collector take from the start, in any order and with any stale ids: at
-- most one update holds the shard, it writes to the current buffer, and the collector clears and reads
-- the other one only. The infos and the gens that were written are, in order, those collected, then
-- those of the buffer that is being read, if any, and then those of the current one, so that nothing is
-- lost and nothing is collected twice.
pub run-IsBalanced : (xs : List Step) → IsBalanced (run xs new_shard)
run-IsBalanced xs = run-from xs new_shard (false, refl, refl)
