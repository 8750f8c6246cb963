-- ===== src/Task/Spawn.antt =====
-- New processes: `create_process`, `spawn_elf` and the stacks they start with, in
-- kernel/drivers/task/task.c. The stacks stand in byte memory; `stack_top` gives the address behind
-- the stack of a slot of the table.
pub mod Frame
pub mod Argv
pub mod Stack
mod Tests
use deva.Prelude.{
  ℕ, zero, suc, ◌+◌, ◌-◌, ◌*◌, ◌^◌, Bool, Option, none, some, List, [], ◌∷◌, length, leb, ltb, ◌==◌,
  if◌then◌else◌, update,
}
use deva.Prelude.Int.{ℤ, pos, negsuc}
use deva.Paging.{Paging, pte_rw, pte_user, alloc_frame, map_page, create_page_directory}
use deva.Fat32.{put32}
use deva.Elf.{elf_load}
use deva.Vfs.{FileSystem, Vfs, vfs_read}
use deva.Task.{Task, Tasks, task_alloc}

abbrev pub stack_size : ℕ
stack_size = 16384

abbrev pub task_private_vaddr : ℕ
task_private_vaddr = 0xA0000000

-- `*(--stack) = v`, with the pointer and the memory.
pub push : ℕ → ℕ × (ℕ → ℕ) → ℕ × (ℕ → ℕ)
push v (sp, mem) = (sp - 4, put32 mem (sp - 4) v)

pub push_zeros : ℕ → ℕ × (ℕ → ℕ) → ℕ × (ℕ → ℕ)
push_zeros zero s = s
push_zeros (suc n) s = push_zeros n (push 0 s)

-- Where `context_switch` goes on: the entry, eight registers, and gs, fs, es and ds.
pub push_context : ℕ → ℕ × (ℕ → ℕ) → ℕ × (ℕ → ℕ)
push_context entry s = push 0x10 (push 0x10 (push 0x10 (push 0x10 (push_zeros 8 (push entry s)))))

-- The new `esp`, and the memory.
pub build_initial_stack : ℕ → ℕ → (ℕ → ℕ) → ℕ × (ℕ → ℕ)
build_initial_stack top entry mem = push_context entry (top, mem)

-- `strlen(argv[i]) + 1` over all arguments.
pub total_str : List (List ℕ) → ℕ
total_str [] = 0
total_str (arg ∷ args) = length arg + 1 + total_str args

-- `memcpy(p, arg, len)`: the characters and the NUL.
pub put_string : List ℕ → ℕ → (ℕ → ℕ) → ℕ → ℕ
put_string [] p mem = update mem p 0
put_string (c ∷ cs) p mem = put_string cs (p + 1) (update mem p c)

pub put_strings : List (List ℕ) → ℕ → (ℕ → ℕ) → ℕ → ℕ
put_strings [] p mem = mem
put_strings (arg ∷ args) p mem = put_strings args (p + (length arg + 1)) (put_string arg p mem)

-- `argv_array[i] = p` for the arguments, the first at `at`.
pub put_pointers : List (List ℕ) → ℕ → ℕ → (ℕ → ℕ) → ℕ → ℕ
put_pointers [] p at mem = mem
put_pointers (arg ∷ args) p at mem =
    put_pointers args (p + (length arg + 1)) (at + 4) (put32 mem at p)

pub build_user_stack : ℕ → ℕ → List (List ℕ) → (ℕ → ℕ) → ℕ × (ℕ → ℕ)
build_user_stack top entry args mem =
    let string_ptr = top - total_str args in
    let (argv_array, mem1) =
      push_zeros (suc (length args)) (string_ptr, put_strings args string_ptr mem) in
    push_context entry
      (push (length args) (argv_array, put_pointers args string_ptr argv_array mem1))

abbrev pub set_esp : ℕ → ℕ → Tasks → Tasks
set_esp t esp s = record s { table = update s.table t (record (s.table t) { esp = esp }) }

abbrev pub set_cr3 : ℕ → ℕ → Tasks → Tasks
set_cr3 t dir s = record s { table = update s.table t (record (s.table t) { cr3 = dir }) }

abbrev pub set_private : ℕ → ℕ → Tasks → Tasks
set_private t page s = record s {
  table = update s.table t (record (s.table t) { private_page_phys = page });
}

-- The static variables of the kernel that the two calls use.
pub record Processes (S : Type 0) : Type 0 where
  pub tasks : Tasks
  pub paging : Paging
  pub stacks : ℕ → ℕ
  pub vfs : Vfs S
  pub elf_buf : ℕ → ℕ

-- The text behind the last slash, or the whole path where nothing is behind it.
pub after_slash : List ℕ → List ℕ → List ℕ
after_slash [] best = best
after_slash (c ∷ cs) best = after_slash cs (if c == b'/' then cs else best)

pub leaf_name : List ℕ → List ℕ
leaf_name path = elim (after_slash path path) [ [] ↦ path | c ∷ cs ↦ c ∷ cs ]

module _ {S : Type 0} (stack_top : ℕ → ℕ) where
  -- The last part of both calls: the directory of the task and its private page with the pid.
  pub give_space : ℕ → ℕ → Processes S → Processes S
  give_space t dir s =
      let (frame, pg) = alloc_frame s.paging in
      let id = (s.tasks.table t).id in
      let written = record pg { mem = update (update pg.mem frame id) (frame + 4) 0 } in
      let owned = set_private t frame (set_cr3 t dir s.tasks) in
      if frame == 0 then record s { tasks = owned; paging = pg } else record s {
        tasks = owned;
        paging = map_page dir task_private_vaddr frame (pte_rw + pte_user) written;
      }

  pub create_process : ℕ → List ℕ → Processes S → Processes S
  create_process entry name s =
      let (slot, tasks) = task_alloc name s.tasks in
      elim slot [
        | none ↦ record s { tasks = tasks }
        | some t ↦
            let (esp, mem) = build_initial_stack (stack_top t) entry s.stacks in
            let (dir, pg) = create_page_directory s.paging in
            give_space t dir (record s { tasks = set_esp t esp tasks; stacks = mem; paging = pg })
      ]

  -- The part of `spawn_elf` behind the file, with its name.
  pub start_program : List ℕ → List (List ℕ) → Processes S → ℤ × Processes S
  start_program name args s =
      let (dir, pg) = create_page_directory s.paging in
      let (entry, pg1) = elf_load dir s.elf_buf pg in
      let (slot, tasks) = task_alloc name s.tasks in
      let loaded = record s { paging = pg1 } in
      let started : ℤ × Processes S = elim slot [
        | none ↦ (negsuc 0, record loaded { tasks = tasks })
        | some t ↦
            let (esp, mem) = build_user_stack (stack_top t) entry args s.stacks in
            (
              pos (tasks.table t).id,
              give_space t dir (record loaded { tasks = set_esp t esp tasks; stacks = mem }),
            )
      ] in
      if entry == 0 then (negsuc 0, loaded) else started

  -- A file of more than 32767 bytes is cut there.
  pub spawn_elf : FileSystem S → List ℕ → List (List ℕ) → Processes S → Option (ℤ × Processes S)
  spawn_elf below path args s = elim (vfs_read below (some path) (some s.elf_buf) 32767 0 s.vfs) [
    | none ↦ none
    | some ((len, buf), vfs) ↦
        let read = record s { vfs = vfs; elf_buf = elim buf [ none ↦ s.elf_buf | some b ↦ b ] } in
        elim len [
          | negsuc n ↦ some (negsuc 0, read)
          | pos zero ↦ some (negsuc 0, read)
          | pos (suc n) ↦ some (start_program (leaf_name path) args read)
        ]
  ]
