-- ===== src/Tests/Disk.antt =====
-- The log file, and the header of the upgrade client, at concrete files.
use bo_atom.Prelude.{
  ℕ, ◌+◌, ◌≤◌, ◌≡◌, refl, true, false, none, some, List, [], ◌∷◌, ◌++◌, arith, replicate, length,
}
use bo_atom.Log.{log_notice, log_alert, log_error, Log, log_file_max_size}
use bo_atom.Log.Bounded.{Entry, log_all, size, log_all-size}
use bo_atom.Upgrade.Header.{Md5, Files, Outcomes, add_hisi_head, upgrade_head}
use bo_atom.Upgrade.Header.Replaces.{
  digest, contents, IsReleased, add_hisi_head-IsReleased, add_hisi_head-replaces,
}

abbrev quiet_log : Log
quiet_log = record { global_log_level = log_alert; file = some (1 ∷ 2 ∷ []) }

abbrev three_entries : List Entry
three_entries =
    record { level = log_error; time = 7 ∷ []; text = 8 ∷ 9 ∷ []; can_open = true }
    ∷ record { level = log_notice; time = 7 ∷ []; text = 5 ∷ []; can_open = true }
    ∷ record { level = log_alert; time = 7 ∷ []; text = 6 ∷ []; can_open = false }
    ∷ []

log_all-size_example : size (log_all three_entries quiet_log).file ≤ log_file_max_size + 3
log_all-size_example =
    log_all-size three_entries 3 quiet_log (omega arith, (omega arith, (omega arith, tt)))
      (omega arith)

-- a stand-in for MD5 that counts bytes
abbrev counting_md5 : Md5 ℕ
counting_md5 = record { init = 0; update = λ c b. c + length b; final = λ c. c ∷ replicate 15 0 }

abbrev version : List ℕ
version = 86 ∷ 49 ∷ []

abbrev old_files : Files
old_files = record { file = some (1 ∷ 2 ∷ 3 ∷ []); tmp = none }

abbrev all_well : Outcomes
all_well = record {
  malloc_ok = true;
  src_fd = some 0;
  dst_fd = some 3;
  head_taken = 128;
  blocks = (1 ∷ 2 ∷ 3 ∷ [], 3) ∷ [];
  seek_ok = true;
  final_taken = 128;
}

abbrev disk_full : Outcomes
disk_full = record all_well { final_taken = 60 }

add_hisi_head-replaces_example :
    ((add_hisi_head counting_md5 version all_well old_files).succeeded ≡ true)
    × ((add_hisi_head counting_md5 version all_well old_files).files.file
        ≡ some (
            upgrade_head version (digest counting_md5 all_well.blocks 0)
            ++ contents all_well.blocks))
add_hisi_head-replaces_example =
    add_hisi_head-replaces counting_md5 version all_well old_files 0 3 refl refl refl refl refl refl
      (refl, tt) (omega arith) (λ c. refl)

add_hisi_head-IsReleased_example :
    IsReleased disk_full old_files (add_hisi_head counting_md5 version disk_full old_files)
add_hisi_head-IsReleased_example = add_hisi_head-IsReleased counting_md5 version disk_full old_files
