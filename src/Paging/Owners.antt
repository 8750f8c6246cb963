-- ===== src/Paging/Owners.antt =====
-- The clients of the frame allocator of kernel/drivers/paging/paging.c: a history of
-- `alloc_frame` and `free_frame` calls, and the frames that are out at its end.
use deva.Prelude.{
  ℕ, zero, suc, ◌*◌, ◌/◌, ◌%◌, ◌<◌, ◌≡◌, ◌≢◌, refl, inl, inr, true, false, List, [], ◌∷◌, arith,
  ◌==◌, if◌then◌else◌, Bool-cases,
}
use deva.Paging.{Paging, page_size, alloc_frame, free_frame}
use deva.Paging.Frames.{is_used, FewFrames, Allocates, alloc_frame_lem, is_used-free_frame}

-- One call of a client: take a frame, or give back the one that stands at a place of its list.
pub data Call : Type 0 where
  take_frame : Call
  give_back : ℕ → Call

-- The allocator and the addresses that are out, the newest first.
pub record Clients : Type 0 where
  pub paging : Paging
  pub out : List ℕ

-- The entry at place `k`, and the list without it.
unfoldable pub entry : List ℕ → ℕ → ℕ
entry [] k = 0
entry (a ∷ more) zero = a
entry (a ∷ more) (suc k) = entry more k

unfoldable pub without : List ℕ → ℕ → List ℕ
without [] k = []
without (a ∷ more) zero = more
without (a ∷ more) (suc k) = a ∷ without more k

-- A client that gets 0 keeps nothing, and calls `free_frame` only on what it holds.
unfoldable pub call : Call → Clients → Clients
call take_frame c =
    let (a, p) = alloc_frame c.paging in
    record { paging = p; out = if a == 0 then c.out else a ∷ c.out }
call (give_back k) c =
    let a = entry c.out k in
    if a == 0 then c else record { paging = free_frame a c.paging; out = without c.out k }

unfoldable pub calls : List Call → Clients → Clients
calls [] c = c
calls (x ∷ xs) c = calls xs (call x c)

abbrev pub NotIn : ℕ → List ℕ → Type 0
NotIn a [] = Unit {0}
NotIn a (b ∷ bs) = (a ≢ b) × NotIn a bs

-- All different, and each the start of a frame that exists and is marked.
abbrev pub AreOut : Paging → List ℕ → Type 0
AreOut p [] = Unit {0}
AreOut p (a ∷ more) =
    (a % page_size ≡ 0)
    × (0 < a)
    × (a / page_size < p.total_frames)
    × (is_used p (a / page_size) ≡ true)
    × NotIn a more
    × AreOut p more

pub record IsSound (c : Clients) : Type 0 where
  pub few : FewFrames c.paging
  pub zero_marked : is_used c.paging 0 ≡ true
  pub out : AreOut c.paging c.out

-- A frame that is marked now and was not among the frames out is new to all of them.
NotIn-of_free :
    (p : Paging) (f : ℕ) (more : List ℕ)
    → is_used p f ≡ false
    → AreOut p more
    → NotIn (f * page_size) more
NotIn-of_free p f [] free o = tt
NotIn-of_free p f (a ∷ more) free o = (ground arith, NotIn-of_free p f more free o.5)

AreOut-alloc :
    (p : Paging) (f : ℕ) (more : List ℕ)
    → Allocates p f
    → AreOut p more
    → AreOut (alloc_frame p).1 more
AreOut-alloc p f [] al o = tt
AreOut-alloc p f (a ∷ more) al o = (
  o.0,
  o.1,
  ground (arith, al.rest),
  ground (arith, al.marked (a / page_size)),
  o.4,
  AreOut-alloc p f more al o.5,
)

total-free_frame : (a : ℕ) (p : Paging) → (free_frame a p).total_frames ≡ p.total_frames
unfolding free_frame
total-free_frame a p = ground arith

AreOut-free :
    (p : Paging) (b : ℕ) (more : List ℕ)
    → b % page_size ≡ 0
    → NotIn b more
    → AreOut p more
    → AreOut (free_frame b p) more
AreOut-free p b [] al n o = tt
AreOut-free p b (a ∷ more) al n o = (
  o.0,
  o.1,
  ground (arith, total-free_frame b p),
  ground (arith, is_used-free_frame p b (a / page_size)),
  o.4,
  AreOut-free p b more al n.1 o.5,
)

NotIn-without : (a : ℕ) (more : List ℕ) (k : ℕ) → NotIn a more → NotIn a (without more k)
unfolding without
NotIn-without a [] k n = tt
NotIn-without a (b ∷ bs) zero n = n.1
NotIn-without a (b ∷ bs) (suc k) n = (n.0, NotIn-without a bs k n.1)

entry_other : (a : ℕ) (bs : List ℕ) (k : ℕ) → NotIn a bs → entry bs k ≢ 0 → entry bs k ≢ a
unfolding entry
entry_other a [] k n ne = absurd (ne refl)
entry_other a (b ∷ bs) zero n ne = ground arith
entry_other a (b ∷ bs) (suc k) n ne = entry_other a bs k n.1 ne

-- The entry that is taken out does not stand in the rest, and the rest is more it was.
taken_out :
    (p : Paging) (more : List ℕ) (k : ℕ)
    → AreOut p more
    → entry more k ≢ 0
    → (entry more k % page_size ≡ 0)
      × (entry more k / page_size ≢ 0)
      × NotIn (entry more k) (without more k)
      × AreOut p (without more k)
unfolding entry without
taken_out p [] k o ne = absurd (ne refl)
taken_out p (a ∷ more) zero o ne = (o.0, omega arith, o.4, o.5)
taken_out p (a ∷ more) (suc k) o ne =
    let (al, nz, apart, rest) = taken_out p more k o.5 ne in
    (
      al,
      nz,
      (entry_other a more k o.4 ne, apart),
      (o.0, o.1, o.2, o.3, NotIn-without a more k o.4, rest),
    )

taken :
    (c : Clients)
    → IsSound c
    → (f : ℕ) → Allocates c.paging f
    → f ≢ 0
    → NotIn (f * page_size) c.out
    → AreOut (alloc_frame c.paging).1 c.out
    → IsSound (call take_frame c)
unfolding call
taken c v f al some_frame new grown =
    let got : ((alloc_frame c.paging).0 == 0) ≡ false = ground (arith, al.address) in
    rw (got, al.address)
      (record {
        few = ground (arith, al.rest, v.few);
        zero_marked = ground (arith, al.marked 0, v.zero_marked);
        out = (
          omega arith,
          omega arith,
          ground (arith, al.rest, al.in_range),
          ground (arith, al.marked (f * page_size / page_size)),
          new,
          grown,
        );
      })

call-IsSound : (x : Call) (c : Clients) → IsSound c → IsSound (call x c)
unfolding call
call-IsSound take_frame c v = elim (alloc_frame_lem c.paging v.few) [
  | inl (f, al) ↦
      let grown = AreOut-alloc c.paging f c.out al v.out in
      let new = NotIn-of_free c.paging f c.out al.was_free v.out in
      let some_frame : f ≢ 0 = ground (arith, al.was_free, v.zero_marked) in
      taken c v f al some_frame new grown
  | inr (all, e) ↦ ground (arith, e)
]
call-IsSound (give_back k) c v = elim (Bool-cases (entry c.out k == 0)) [
  | inl none_there ↦ rw none_there v
  | inr there ↦
      let (al, nz, apart, rest) = taken_out c.paging c.out k v.out (ground arith) in
      rw there (record {
        few = ground (arith, total-free_frame (entry c.out k) c.paging);
        zero_marked = ground (arith, is_used-free_frame c.paging (entry c.out k) 0);
        out = AreOut-free c.paging (entry c.out k) (without c.out k) al apart rest;
      })
]

-- After any history of calls the addresses that are out are all different; each is the start of a
-- frame of its own that exists, is marked in the bitmap, and is not frame 0.
pub calls-IsSound : (xs : List Call) (c : Clients) → IsSound c → IsSound (calls xs c)
unfolding calls
calls-IsSound [] c v = v
calls-IsSound (x ∷ xs) c v = calls-IsSound xs (call x c) (call-IsSound x c v)
