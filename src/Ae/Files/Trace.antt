-- ===== src/Ae/Files/Trace.antt =====
-- Histories of the registration array: any sequence of the calls that aeCreateFileEvent,
-- aeDeleteFileEvent and aeResizeSetSize make.
use bo_atom.Prelude.{ℕ, ◌≡◌, true}
use bo_atom.Ae.Mask.{Mask, is_set}
use bo_atom.Ae.Files.{
  Api, FileTable, mask_at, create_file_event, delete_file_event, resize_set_size,
}
use bo_atom.Ae.Files.Valid.{IsValid, create-IsValid, delete-IsValid}
use bo_atom.Ae.Files.Resize.{resize-IsValid}
use bo_atom.Ae.Files.Procs.{
  AllHaveProcs, create-AllHaveProcs, delete-AllHaveProcs, resize-AllHaveProcs,
}
use bo_atom.Ae.Files.Sync.{IsLayer, create-IsSynced, delete-IsSynced, resize-IsSynced}

module _ {ℓ} {P D S : Type ℓ} (api : Api S) where
  -- One call. A registration is for some event: every caller passes a non-empty mask.
  pub data Step (t : FileTable P D S) : FileTable P D S → Type ℓ where
    creates :
        (fd : ℕ) (m : Mask) (proc : P) (arg : D)
        → is_set m ≡ true
        → Step t (create_file_event api t fd m proc arg).0
    deletes : (fd : ℕ) (m : Mask) → Step t (delete_file_event api t fd m)
    resizes : (n : ℕ) → Step t (resize_set_size api t n).0

  pub data Reach (t : FileTable P D S) : FileTable P D S → Type ℓ where
    here : Reach t t
    next : {u v : FileTable P D S} → Reach t u → Step u v → Reach t v

  -- well formed, watched by the polling layer as registered, and with its procedures in place
  pub record IsSound (Watches : S → (ℕ → Mask) → Type 0) (t : FileTable P D S) : Type ℓ where
    pub valid : IsValid t
    pub synced : Watches t.apidata (mask_at t.events)
    pub procs : AllHaveProcs t.events

  module _ (Watches : S → (ℕ → Mask) → Type 0) (layer : IsLayer api Watches) where
    Step-IsSound : {t u : FileTable P D S} → Step t u → IsSound Watches t → IsSound Watches u
    Step-IsSound {t} (creates fd m proc arg bit) s = record {
      valid = create-IsValid api t s.valid fd m proc arg bit;
      synced = create-IsSynced api Watches layer t s.valid fd m proc arg bit s.synced;
      procs = create-AllHaveProcs api t s.procs fd m proc arg;
    }
    Step-IsSound {t} (deletes fd m) s = record {
      valid = delete-IsValid api t s.valid fd m;
      synced = delete-IsSynced api Watches layer t s.valid fd m s.synced;
      procs = delete-AllHaveProcs api t s.procs fd m;
    }
    Step-IsSound {t} (resizes n) s = record {
      valid = resize-IsValid api t s.valid n;
      synced = resize-IsSynced api Watches layer t s.valid n s.synced;
      procs = resize-AllHaveProcs api t s.procs n;
    }

    -- From a table that is sound, every sequence of registrations (each with a non-empty mask),
    -- deletions and resizings leads to a sound one, whether the calls succeed or fail: the array has
    -- `setsize` slots, `maxfd` is the largest registered descriptor, every slot that is registered
    -- for an event has its procedure, and the polling layer watches each descriptor for exactly the
    -- events of its mask. This holds with any polling layer that keeps the laws of `IsLayer`.
    pub Reach-IsSound : {t u : FileTable P D S} → IsSound Watches t → Reach t u → IsSound Watches u
    Reach-IsSound s here = s
    Reach-IsSound s (next r st) = Step-IsSound st (Reach-IsSound s r)
