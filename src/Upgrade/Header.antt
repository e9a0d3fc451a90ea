-- ===== src/Upgrade/Header.antt =====
-- add_hisiHead of Z_my_work_upgrade/test_client.c: it replaces a file by a header and its contents.
pub mod Replaces
use bo_atom.Prelude.{
  ℕ, zero, suc, ◌+◌, ◌-◌, Bool, true, false, not, Option, none, some, List, [], ◌∷◌, ◌++◌, ◌==◌,
  if◌then◌else◌, ltb, length, take, drop, replicate,
}

-- sizeof(upgrade_head_t)
abbrev pub head_length : ℕ
head_length = 128

-- MAGIC_STRING_HEADER, "DVO-IPCS"
abbrev pub magic_string_header : List ℕ
magic_string_header = 68 ∷ 86 ∷ 79 ∷ 45 ∷ 73 ∷ 80 ∷ 67 ∷ 83 ∷ []

-- The bytes of upgrade_head_t: magic, hardware_version, md5 and rev.
abbrev pub upgrade_head : List ℕ → List ℕ → List ℕ
upgrade_head version md5 =
    magic_string_header ++ (version ++ replicate (32 - length version) 0) ++ md5 ++ replicate 72 0

-- MD5_Init, MD5_Update and MD5_Final.
pub record Md5 {ℓ} (C : Type ℓ) : Type ℓ where
  pub init : C
  pub update : C → List ℕ → C
  pub final : C → List ℕ

-- The file, and the one with `_tmp` behind its name; none where there is no file.
pub record Files : Type 0 where
  pub file : Option (List ℕ)
  pub tmp : Option (List ℕ)

-- What the calls return: whether malloc succeeds, the two descriptors (none where open fails), how many bytes the two writes of
-- the header take, the blocks that read brings, each with the number of bytes that write takes of it,
-- and whether lseek succeeds.
pub record Outcomes : Type 0 where
  pub malloc_ok : Bool
  pub src_fd : Option ℕ
  pub dst_fd : Option ℕ
  pub head_taken : ℕ
  pub blocks : List (List ℕ × ℕ)
  pub seek_ok : Bool
  pub final_taken : ℕ

-- the descriptors that are open and the buffer
pub record Held : Type 0 where
  pub src : Option ℕ
  pub dst : Option ℕ
  pub buf : Bool

abbrev pub held : Option ℕ → Option ℕ → Bool → Held
held s d b = record { src = s; dst = d; buf = b }

-- 0 or -1, with the files and what is still held
pub record Done : Type 0 where
  pub succeeded : Bool
  pub files : Files
  pub left : Held

-- `if (fd > 0) close(fd)`: the descriptor that is still open
abbrev pub close_positive : Option ℕ → Option ℕ
close_positive fd = elim fd [ none ↦ none | some n ↦ if ltb 0 n then none else some n ]

-- the code behind `err:`
unfoldable pub fail : Held → Files → Done
fail h fs = record {
  succeeded = false;
  files = fs;
  left = record {
    src = close_positive h.src;
    dst = close_positive h.dst;
    buf = if h.buf then false else h.buf;
  };
}

-- the contents of the new file after the loop of `read` and `write`, and the context of MD5
unfoldable pub copy {ℓ} : {C : Type ℓ} → Md5 C → List (List ℕ × ℕ) → List ℕ → C → List ℕ × C
copy md5 [] written c = (written, c)
copy md5 (b ∷ bs) written c = copy md5 bs (written ++ take b.1 b.0) (md5.update c b.0)

-- `write` at the start of the file, of which `n` bytes are taken
abbrev pub overwrite : ℕ → List ℕ → List ℕ → List ℕ
overwrite n head written = take n head ++ drop (length (take n head)) written

module _ {ℓ} {C : Type ℓ} (md5 : Md5 C) (version : List ℕ) where
  -- the part behind the second `open`, with the two descriptors
  unfoldable pub fill : ℕ → ℕ → Outcomes → Files → Done
  unfolding fail copy
  fill src_fd dst_fd o fs =
      let all = held (some src_fd) (some dst_fd) true in
      let blank = take o.head_taken (upgrade_head version (replicate 16 0)) in
      let (written, c) = copy md5 o.blocks blank md5.init in
      let final = overwrite o.final_taken (upgrade_head version (md5.final c)) written in
      if not (o.head_taken == head_length)
      then fail all (record fs { tmp = some blank })
      else if not o.seek_ok
      then fail all (record fs { tmp = some written })
      else if not (o.final_taken == head_length)
      then fail all (record fs { tmp = some final })
      else record {
        succeeded = true;
        files = record { file = some final; tmp = none };
        left = held none none false;
      }

  -- add_hisiHead
  unfoldable pub add_hisi_head : Outcomes → Files → Done
  unfolding fill fail
  add_hisi_head o fs = if not o.malloc_ok then fail (held none none false) fs else elim o.src_fd [
    | none ↦ fail (held none none true) fs
    | some s ↦ elim o.dst_fd [ none ↦ fail (held (some s) none true) fs | some d ↦ fill s d o fs ]
  ]
