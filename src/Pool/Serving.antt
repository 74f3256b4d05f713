-- ===== src/Pool/Serving.antt =====
-- `find_frame` and the two page requests: a page that the pool can serve is served with what it
-- held, and no page changes.
use mathlib.Core.List.{mem-cons_self}
use buffer_pool.Base.{
  ℕ, ◌+◌, ◌≤◌, ◌<◌, ◌≡◌, refl, sym, ap, subst, ◌∙◌, ◌≢◌, ◌⊎◌, inl, inr, none, some, List, [], ◌∷◌,
  arith, Option-cases, ◌>>=◌, List-cases, ==_of_ne, >>=-eq-some, some_inj, length,
}
use buffer_pool.Base.Assoc
use buffer_pool.Base.Assoc.{values, Distinct}
use buffer_pool.Common.{page_size, u64_size}
use buffer_pool.Disk.FileIo.{Io}
use buffer_pool.Disk.Writing.{num_writes-write_page}
use buffer_pool.Disk.Slots.{Succeeds}
use buffer_pool.Arc.{ArcReplacer}
use buffer_pool.Arc
use buffer_pool.Guard.{frame_at}
use buffer_pool.Pool.{
  BufferPoolManager, evict_page, page_of_frame, load_page, find_frame, find_absent,
}
use buffer_pool.Pool.Frames.{get_elem?-of_lt, used-lt, free-lt, page_of_frame-get}
use buffer_pool.Arc.{record_access}
use buffer_pool.Pool.Loading.{
  disk_of, content, content_absent, IsReady, Serves, loaded, after_load-Serves, load_page-loads,
}
use buffer_pool.Pool.Evicting.{evicted, after_evict-IsReady, evict_page-evicts, content-evict}

-- The three ways in which the pool has a frame for a page.
pub data Available (p : BufferPoolManager) (page_id : ℕ) : Type 0 where
  resident : (i : ℕ) → Assoc.get p.page_table page_id ≡ some i → Available p page_id
  free :
      (i : ℕ) (rest : List ℕ)
      → Assoc.get p.page_table page_id ≡ none
      → p.free_frames ≡ i ∷ rest
      → Available p page_id
  evictable :
      (i old : ℕ) (arc : ArcReplacer)
      → Assoc.get p.page_table page_id ≡ none
      → p.free_frames ≡ []
      → Arc.evict p.shared.arc_replacer ≡ some (some i, arc)
      → page_of_frame i p.page_table ≡ some old
      → Available p page_id

module _ (faults : ℕ → Io) (p : BufferPoolManager) (page_id : ℕ) (bytes : List ℕ) (r : IsReady p)
    (s : (n : ℕ) → Succeeds (faults n)) (len : length bytes ≡ page_size)
    (holds : content p page_id ≡ some bytes) where
  serve_free :
      (i : ℕ) (rest : List ℕ)
      → Assoc.get p.page_table page_id ≡ none
      → p.free_frames ≡ i ∷ rest
      → (j : ℕ) × (p' : BufferPoolManager) × (load_page faults p page_id p.free_frames
          ≡ some (j, p'))
        × ((disk_of p').num_writes ≡ (disk_of p).num_writes)
        × Serves p p' page_id j
  serve_free i rest absent e =
      let (f, at) =
        get_elem?-of_lt p.shared.frames i
          (rw r.pool.frames.count (free-lt p r.pool i (rw e mem-cons_self))) in
      let there = sym (content_absent p page_id absent) ∙ holds in
      (
        i,
        loaded p page_id i bytes f rest,
        ap (load_page faults p page_id) e
            ∙ load_page-loads p page_id i rest bytes f r absent e at len there faults (s _),
        refl,
        after_load-Serves p page_id i rest bytes f r absent e at len there,
      )

-- A request for a page that exists, while the pool is in order, has a frame for it and no system
-- call fails, succeeds: the page is then in the frame that is returned, and every page, the one
-- that was evicted included, holds what it held.
pub find_frame-Serves :
    (faults : ℕ → Io) (p : BufferPoolManager) (page_id : ℕ) (bytes : List ℕ)
    → IsReady p
    → ((n : ℕ) → Succeeds (faults n))
    → length bytes ≡ page_size
    → content p page_id ≡ some bytes
    → (disk_of p).num_writes + 1 < u64_size
    → Available p page_id
    → (i : ℕ) × (p' : BufferPoolManager) × (find_frame faults p page_id ≡ some (i, p'))
      × Serves p p' page_id i
unfolding find_frame find_absent load_page
find_frame-Serves faults p page_id bytes r s len holds counted (resident i e) = (
  i,
  p,
  rw (e, find_frame),
  record { ready = r; resident = e; same = λ k. refl; writes = omega arith },
)
find_frame-Serves faults p page_id bytes r s len holds counted (free i rest e f) =
    let (j, p', loads, counts, serves) =
      serve_free faults p page_id bytes r s len holds i rest e f in
    (
      j,
      p',
      rw (e, find_frame)
          (ap (find_absent faults p page_id) f ∙ sym (ap (load_page faults p page_id) f) ∙ loads),
      serves,
    )
find_frame-Serves faults p page_id bytes r s len holds counted (evictable i old arc e f g v) =
    let there = page_of_frame-get i old p.page_table r.pool.distinct v in
    let (frame, at) =
      get_elem?-of_lt p.shared.frames i (rw r.pool.frames.count (used-lt p r.pool old i there)) in
    let p1 = evicted faults p old i frame arc in
    let apart : page_id ≢ old = λ same. cc (e, there, same) in
    let once : (disk_of p1).num_writes ≤ (disk_of p).num_writes + 1 =
      num_writes-write_page (faults p.shared.disk_scheduler.served) (disk_of p) old frame.bytes in
    let same1 = content-evict faults p old i frame arc r (s _) counted v at in
    let (j, p', loads, counts, serves) =
      serve_free faults p1 page_id bytes
        (after_evict-IsReady faults p old i frame arc r (s _) counted v at) s len
        (same1 page_id ∙ holds) i p.free_frames
        (Assoc.get-remove_ne old page_id p.page_table (==_of_ne old page_id apart) ∙ e) refl in
    (
      j,
      p',
      rw (e, find_frame)
          (ap (find_absent faults p page_id) f
            ∙ ap (λ o. o >>= λ q. load_page faults q page_id q.free_frames)
                (evict_page-evicts faults p old i frame arc r (s _) counted v at g)
            ∙ loads),
      record {
        ready = serves.ready;
        resident = serves.resident;
        same = λ k. serves.same k ∙ same1 k;
        writes = omega (arith, counts, once);
      },
    )

-- An eviction that does not panic had a frame to give up, and a page in it.
evict_page-some :
    (faults : ℕ → Io) (p q : BufferPoolManager)
    → evict_page faults p ≡ some q
    → (i : ℕ) × (old : ℕ) × (arc : ArcReplacer) × (Arc.evict p.shared.arc_replacer
        ≡ some (some i, arc))
      × (page_of_frame i p.page_table ≡ some old)
unfolding evict_page
evict_page-some faults p q e =
    let ((found, arc), e1, rest1) = >>=-eq-some (Arc.evict p.shared.arc_replacer) _ e in
    let (i, e2, rest2) = >>=-eq-some found _ rest1 in
    let (f, e3, rest3) = >>=-eq-some (frame_at p.shared i) _ rest2 in
    let (old, e4, rest4) = >>=-eq-some (page_of_frame i p.page_table) _ rest3 in
    (i, old, arc, e1 ∙ ap (λ x. some (x, arc)) e2, e4)

pub find_frame-Available :
    (faults : ℕ → Io) (p q : BufferPoolManager) (page_id i : ℕ)
    → find_frame faults p page_id ≡ some (i, q)
    → Available p page_id
unfolding find_frame find_absent
find_frame-Available faults p q page_id i e = elim (Option-cases (Assoc.get p.page_table page_id)) [
  | inr (j, there) ↦ resident j there
  | inl absent ↦ elim (List-cases p.free_frames) [
    | inr (j, rest, some_free) ↦ free j rest absent some_free
    | inl no_free ↦
        let (p1, evicts, _) =
          >>=-eq-some (evict_page faults p) (λ p'. load_page faults p' page_id p'.free_frames)
            (ap (find_absent faults p page_id) (sym no_free) ∙ rw (absent, find_frame) at e) in
        let (j, old, arc, gives, victim) = evict_page-some faults p p1 evicts in
        evictable j old arc absent no_free gives victim
  ]
]

-- A request for a page that exists, without faults and with the pool in order, either panics, or
-- leaves the page in the frame that it returns and every page with what it held. It panics exactly
-- if the page is not in the pool, no frame is free, and the replacer gives up no frame of a page.
pub find_frame-keeps :
    (faults : ℕ → Io) (p : BufferPoolManager) (page_id : ℕ) (bytes : List ℕ)
    → IsReady p
    → ((n : ℕ) → Succeeds (faults n))
    → length bytes ≡ page_size
    → content p page_id ≡ some bytes
    → (disk_of p).num_writes + 1 < u64_size
    → ((find_frame faults p page_id ≡ none) × ¬ Available p page_id)
      ⊎ ((i : ℕ) × (q : BufferPoolManager) × (find_frame faults p page_id ≡ some (i, q))
          × Serves p q page_id i
          × Available p page_id)
find_frame-keeps faults p page_id bytes r s len holds counted =
    elim (Option-cases (find_frame faults p page_id)) [
      | inl panics ↦ inl (
        panics,
        λ a.
            let (i, q, found, _) =
              find_frame-Serves faults p page_id bytes r s len holds counted a in
            cc (panics, found),
      )
      | inr ((i, q), found) ↦
          let a = find_frame-Available faults p q page_id i found in
          let (j, q', found', serves) =
            find_frame-Serves faults p page_id bytes r s len holds counted a in
          inr (
            i,
            q,
            found,
            subst (λ (x : ℕ × BufferPoolManager). Serves p x.1 page_id x.0)
                (some_inj (sym found' ∙ found)) serves,
            a,
          )
    ]
