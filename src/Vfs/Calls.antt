-- ===== src/Vfs/Calls.antt =====
-- Sequences of calls of kernel/drivers/vfs/vfs.c.
use deva.Prelude.{
  ℕ, zero, suc, ◌≡◌, inl, inr, refl, ap, ◌∙◌, Bool, true, false, Option, none, some, List, [], ◌∷◌,
  arith, if◌then◌else◌, Bool-cases, Option-cases,
}
use deva.Prelude.Int.{ℤ, pos, negsuc}
use deva.Vfs.{
  VfsStat, FileSystem, Vfs, vfs_init, answer, guarded, vfs_read, vfs_write, vfs_create, vfs_delete,
  vfs_delete_recursive, vfs_exists, vfs_stat,
}

pub data Call : Type 0 where
  call_init : Call
  call_read : Option (List ℕ) → Option (ℕ → ℕ) → ℕ → ℕ → Call
  call_write : Option (List ℕ) → Option (ℕ → ℕ) → ℕ → Call
  call_create : Option (List ℕ) → Bool → Call
  call_delete : Option (List ℕ) → Call
  call_delete_recursive : Option (List ℕ) → Call
  call_exists : Option (List ℕ) → Call
  call_stat : Option (List ℕ) → Bool → Call

-- The answer of a call, with what it leaves at the pointers it was given.
pub data Reply : Type 0 where
  code : ℤ → Reply
  bytes : ℤ → Option (ℕ → ℕ) → Reply
  truth : Bool → Reply
  status : ℤ → Option VfsStat → Reply

abbrev pub with_reply :
    {S : Type 0} {A : Type 0} → (A → Reply) → Option (A × S) → Option (Reply × S)
with_reply f none = none
with_reply f (some (a, s)) = some (f a, s)

abbrev pub refusal : Call → Reply
refusal call_init = truth true
refusal (call_read path buffer max_size offset) = bytes (negsuc 0) buffer
refusal (call_write path content size) = code (negsuc 0)
refusal (call_create path is_dir) = code (negsuc 0)
refusal (call_delete path) = code (negsuc 0)
refusal (call_delete_recursive path) = code (negsuc 0)
refusal (call_exists path) = truth false
refusal (call_stat path out) = status (negsuc 0) none

-- The layer before `vfs_init` and after it.
abbrev pub unmounted : {S : Type 0} → S → Vfs S
unmounted s = record { vfs_initialized = false; fs = s }

abbrev pub mounted : {S : Type 0} → S → Vfs S
mounted s = record { vfs_initialized = true; fs = s }

-- The layer around the state of the file system.
abbrev pub with_fs : {S : Type 0} → Option (Reply × S) → Option (Reply × Vfs S)
with_fs none = none
with_fs (some (r, s)) = some (r, mounted s)

abbrev pub is_init : Call → Bool
is_init call_init = true
is_init c = false

-- The first answer and the others.
abbrev pub with_first : {S : Type 0} → Reply → Option (List Reply × S) → Option (List Reply × S)
with_first r none = none
with_first r (some (rs, s)) = some (r ∷ rs, s)

abbrev pub then_run :
    {S T : Type 0} → Option (Reply × S) → (S → Option (List Reply × T)) → Option (List Reply × T)
then_run none next = none
then_run (some (r, s)) next = with_first r (next s)

then_ready :
    {S T : Type 0} (next : Vfs S → Option (List Reply × T)) (next' : S → Option (List Reply × T))
    (o : Option (Reply × S))
    → ((s : S) → next (mounted s) ≡ next' s)
    → then_run (with_fs o) next ≡ then_run o next'
then_ready next next' none e = refl
then_ready next next' (some (r, s)) e = ap (with_first r) (e s)

module _ {S : Type 0} (below : FileSystem S) where
  pub call_vfs : Call → Vfs S → Option (Reply × Vfs S)
  call_vfs call_init v = some (truth (vfs_init below v).0, (vfs_init below v).1)
  call_vfs (call_read path buffer max_size offset) v =
      with_reply (λ r. bytes r.0 r.1) (vfs_read below path buffer max_size offset v)
  call_vfs (call_write path content size) v = with_reply code (vfs_write below path content size v)
  call_vfs (call_create path is_dir) v = with_reply code (vfs_create below path is_dir v)
  call_vfs (call_delete path) v = with_reply code (vfs_delete below path v)
  call_vfs (call_delete_recursive path) v = with_reply code (vfs_delete_recursive below path v)
  call_vfs (call_exists path) v = with_reply truth (vfs_exists below path v)
  call_vfs (call_stat path out) v = with_reply (λ r. status r.0 r.1) (vfs_stat below path out v)

  -- The file system alone: a call with every pointer it needs, and a size that is not 0 where it reads,
  -- goes to it, any other is refused.
  unfoldable pub call_fs : Call → S → Option (Reply × S)
  call_fs (call_read (some path) (some buf) (suc n) offset) s =
      elim (below.fs_read path buf (suc n) offset s) [
        | none ↦ none
        | some (k, buf', s') ↦ some (bytes k (some buf'), s')
      ]
  call_fs (call_write (some path) (some content) size) s =
      with_reply code (below.fs_write path content size s)
  call_fs (call_create (some path) is_dir) s = with_reply code (below.fs_create path is_dir s)
  call_fs (call_delete (some path)) s = with_reply code (below.fs_delete path s)
  call_fs (call_delete_recursive (some path)) s = with_reply code (below.fs_delete_recursive path s)
  call_fs (call_exists (some path)) s = with_reply truth (below.fs_exists path s)
  call_fs (call_stat (some path) true) s = elim (below.fs_stat path s) [
    | none ↦ none
    | some (none, s') ↦ some (status (negsuc 0) none, s')
    | some (some st, s') ↦ some (status (pos 0) (some st), s')
  ]
  call_fs c s = some (refusal c, s)

  answer_lem :
      {A : Type 0} (f : A → Reply) (s : S) (o : Option (A × S))
      → with_reply f (answer below (mounted s) o) ≡ with_fs (with_reply f o)
  unfolding answer
  answer_lem f s none = refl
  answer_lem f s (some r) = refl

  guarded_ready :
      (call : List ℕ → S → Option (ℤ × S)) (path : List ℕ) (s : S)
      → with_reply code (guarded below call (some path) (mounted s))
        ≡ with_fs (with_reply code (call path s))
  unfolding guarded
  guarded_ready call path s = answer_lem code s (call path s)

  -- A call on an initialised layer does what the file system does.
  call_ready : (c : Call) (s : S) → call_vfs c (mounted s) ≡ with_fs (call_fs c s)
  unfolding call_vfs call_fs vfs_init vfs_read vfs_write vfs_create vfs_delete vfs_delete_recursive
      vfs_exists vfs_stat guarded
  call_ready call_init s = refl
  call_ready (call_read none b n off) s = refl
  call_ready (call_read (some path) none n off) s = refl
  call_ready (call_read (some path) (some b) zero off) s = refl
  call_ready (call_read (some path) (some b) (suc n) off) s =
      elim (Option-cases (below.fs_read path b (suc n) off s)) [
        | inl x ↦ rw x (ground arith)
        | inr x ↦ rw x.1 (ground arith)
      ]
  call_ready (call_write none none size) s = refl
  call_ready (call_write (some path) none size) s = refl
  call_ready (call_write none (some b) size) s = refl
  call_ready (call_write (some path) (some b) size) s =
      guarded_ready (λ p s. below.fs_write p b size s) path s
  call_ready (call_create none dir) s = refl
  call_ready (call_create (some path) dir) s = guarded_ready (λ p s. below.fs_create p dir s) path s
  call_ready (call_delete none) s = refl
  call_ready (call_delete (some path)) s = guarded_ready below.fs_delete path s
  call_ready (call_delete_recursive none) s = refl
  call_ready (call_delete_recursive (some path)) s = guarded_ready below.fs_delete_recursive path s
  call_ready (call_exists none) s = refl
  call_ready (call_exists (some path)) s = answer_lem truth s (below.fs_exists path s)
  call_ready (call_stat none out) s = refl
  call_ready (call_stat (some path) false) s = refl
  call_ready (call_stat (some path) true) s = elim (Option-cases (below.fs_stat path s)) [
    | inl x ↦ rw x (ground arith)
    | inr ((none, s'), x) ↦ rw x (ground arith)
    | inr ((some st, s'), x) ↦ rw x (ground arith)
  ]

  call_first :
      (c : Call) (s : S)
      → is_init c ≡ true
      → call_vfs c (unmounted s) ≡ some (truth true, mounted (below.fs_init s))
  unfolding call_vfs vfs_init
  call_first call_init s e = refl
  call_first (call_read path b n off) s e = ground (arith, e)
  call_first (call_write path b size) s e = ground (arith, e)
  call_first (call_create path dir) s e = ground (arith, e)
  call_first (call_delete path) s e = ground (arith, e)
  call_first (call_delete_recursive path) s e = ground (arith, e)
  call_first (call_exists path) s e = ground (arith, e)
  call_first (call_stat path out) s e = ground (arith, e)

  call_early :
      (c : Call) (s : S)
      → is_init c ≡ false
      → call_vfs c (unmounted s) ≡ some (refusal c, unmounted s)
  unfolding call_vfs vfs_read vfs_write vfs_create vfs_delete vfs_delete_recursive vfs_exists
      vfs_stat guarded
  call_early call_init s e = ground (arith, e)
  call_early (call_read none b n off) s e = refl
  call_early (call_read (some path) none n off) s e = refl
  call_early (call_read (some path) (some b) n off) s e = refl
  call_early (call_write path none size) s e = refl
  call_early (call_write none (some b) size) s e = refl
  call_early (call_write (some path) (some b) size) s e = refl
  call_early (call_create none dir) s e = refl
  call_early (call_create (some path) dir) s e = refl
  call_early (call_delete none) s e = refl
  call_early (call_delete (some path)) s e = refl
  call_early (call_delete_recursive none) s e = refl
  call_early (call_delete_recursive (some path)) s e = refl
  call_early (call_exists none) s e = refl
  call_early (call_exists (some path)) s e = refl
  call_early (call_stat none out) s e = refl
  call_early (call_stat (some path) out) s e = refl

  -- The answers of a sequence of calls, through the layer and from the file system alone, with the
  -- state that they leave.
  pub run_vfs : List Call → Vfs S → Option (List Reply × Vfs S)
  run_vfs [] v = some ([], v)
  run_vfs (c ∷ cs) v = then_run (call_vfs c v) (run_vfs cs)

  unfoldable pub run_fs : List Call → S → Option (List Reply × Vfs S)
  run_fs [] s = some ([], mounted s)
  run_fs (c ∷ cs) s = then_run (call_fs c s) (run_fs cs)

  -- Until the first call of vfs_init every call is refused and the file system is not asked.
  unfoldable pub run_lazy : List Call → S → Option (List Reply × Vfs S)
  run_lazy [] s = some ([], unmounted s)
  run_lazy (c ∷ cs) s =
      if is_init c
      then with_first (truth true) (run_fs cs (below.fs_init s))
      else with_first (refusal c) (run_lazy cs s)

  run_ready : (cs : List Call) (s : S) → run_vfs cs (mounted s) ≡ run_fs cs s
  unfolding run_vfs run_fs
  run_ready [] s = refl
  run_ready (c ∷ cs) s =
      ap (λ o. then_run o (run_vfs cs)) (call_ready c s)
      ∙ then_ready (run_vfs cs) (run_fs cs) (call_fs c s) (run_ready cs)

  -- Any sequence of calls from the start: until the first vfs_init each is refused and the file system
  -- is not asked; from then on, the file system initialised once, each call with all its pointers, and
  -- a size that is not 0 where it reads, is the call of the file system, and every other is refused.
  pub run_vfs-eq-run_lazy : (cs : List Call) (s : S) → run_vfs cs (unmounted s) ≡ run_lazy cs s
  unfolding run_vfs run_lazy
  run_vfs-eq-run_lazy [] s = refl
  run_vfs-eq-run_lazy (c ∷ cs) s = elim (Bool-cases (is_init c)) [
    | inl e ↦ rw e (
        ap (λ o. then_run o (run_vfs cs)) (call_first c s e)
        ∙ ap (with_first (truth true)) (run_ready cs (below.fs_init s)))
    | inr e ↦ rw e (
        ap (λ o. then_run o (run_vfs cs)) (call_early c s e)
        ∙ ap (with_first (refusal c)) (run_vfs-eq-run_lazy cs s))
  ]
