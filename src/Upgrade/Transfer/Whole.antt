-- ===== src/Upgrade/Transfer/Whole.antt =====
-- send_file sends the whole file, in as many frames as it announces.
use bo_atom.Prelude.{
  ℕ, suc, ◌-◌, ◌<◌, min, ◌≡◌, refl, sym, ap, ◌∙◌, Bool, true, false, ◌&&◌, Option, none, some, List,
  [], ◌∷◌, ◌++◌, length, arith, append_snoc,
}
use mathlib.Core.Path.{subst}
use mathlib.Core.List.{append-nil}
use bo_atom.Upgrade.Transfer.{
  Frame, frame, frames_for, room, chunk, chunk_end, Round, sent_all, send_failed, acknowledged,
  send_rounds, send_file,
}

-- the rounds in which these chunks are read, sent and acknowledged, and then the file ends
abbrev pub good_rounds : List (List ℕ) → List Round
good_rounds [] = record { chunk_read = chunk_end; written = true; ack = none } ∷ []
good_rounds (c ∷ cs) =
    record { chunk_read = chunk c; written = true; ack = some 0 } ∷ good_rounds cs

-- What read(2) does for a file with `left` bytes left: it fills the room while there are enough.
abbrev pub Chunks : ℕ → List (List ℕ) → Type 0
Chunks left [] = left ≡ 0
Chunks left (c ∷ cs) = (0 < left) × (length c ≡ min room left) × Chunks (left - length c) cs

-- the frames of the chunks, numbered from `cur`
abbrev pub frames_of : ℕ → ℕ → List (List ℕ) → List Frame
frames_of size cur [] = []
frames_of size cur (c ∷ cs) = frame size cur c ∷ frames_of size (suc cur) cs

-- the bytes of the file in the frames, and in the chunks
abbrev pub payloads : List Frame → List ℕ
payloads [] = []
payloads (f ∷ fs) = f.payload ++ payloads fs

abbrev pub contents : List (List ℕ) → List ℕ
contents [] = []
contents (c ∷ cs) = c ++ contents cs

-- The frames are numbered from `cur` on, and each says that there are `n`.
abbrev pub Numbered : ℕ → ℕ → List Frame → Type 0
Numbered n cur [] = Unit {0}
Numbered n cur (f ∷ fs) = (f.cur_frame ≡ cur) × (f.total_frame ≡ n) × Numbered n (suc cur) fs

send_rounds-frames :
    (size cur : ℕ) (sent : List Frame) (cs : List (List ℕ))
    → send_rounds size cur sent (good_rounds cs) ≡ sent_all (sent ++ frames_of size cur cs)
unfolding send_rounds
send_rounds-frames size cur sent [] = ap sent_all (sym (append-nil sent))
send_rounds-frames size cur sent (c ∷ cs) =
    send_rounds-frames size (suc cur) (sent ++ frame size cur c ∷ []) cs
    ∙ ap sent_all (append_snoc sent (frames_of size (suc cur) cs) (frame size cur c))

chunk_count : (left : ℕ) (cs : List (List ℕ)) → Chunks left cs → length cs ≡ frames_for left
chunk_count left [] h = omega arith
chunk_count left (c ∷ cs) h = omega (arith, chunk_count (left - length c) cs h.2)

frames_of-Numbered :
    (size cur : ℕ) (cs : List (List ℕ)) → Numbered (frames_for size) cur (frames_of size cur cs)
frames_of-Numbered size cur [] = tt
frames_of-Numbered size cur (c ∷ cs) = (refl, refl, frames_of-Numbered size (suc cur) cs)

payloads-frames_of :
    (size cur : ℕ) (cs : List (List ℕ)) → payloads (frames_of size cur cs) ≡ contents cs
payloads-frames_of size cur [] = refl
payloads-frames_of size cur (c ∷ cs) = ap (λ l. c ++ l) (payloads-frames_of size (suc cur) cs)

length-frames_of : (size cur : ℕ) (cs : List (List ℕ)) → length (frames_of size cur cs) ≡ length cs
length-frames_of size cur [] = refl
length-frames_of size cur (c ∷ cs) = ap suc (length-frames_of size (suc cur) cs)

-- When the file of `size` bytes is read in full chunks and every frame is sent and acknowledged,
-- send_file returns 0; the frames carry the file's bytes in order, are numbered from 1, and each
-- announces as many frames as there are.
pub send_file-sent_all :
    (size : ℕ) (cs : List (List ℕ))
    → Chunks size cs
    → (fs : List Frame) × (send_file (some size) (good_rounds cs) ≡ sent_all fs)
      × (payloads fs ≡ contents cs)
      × Numbered (length fs) 1 fs
unfolding send_file
send_file-sent_all size cs h =
    let total : frames_for size ≡ length (frames_of size 1 cs) =
      sym (length-frames_of size 1 cs ∙ chunk_count size cs h) in
    (
      frames_of size 1 cs,
      send_rounds-frames size 1 [] cs,
      payloads-frames_of size 1 cs,
      subst (λ n. Numbered n 1 (frames_of size 1 cs)) total (frames_of-Numbered size 1 cs),
    )

-- rounds in which these chunks are read, sent and acknowledged, and then others
abbrev pub acknowledged_rounds : List (List ℕ) → List Round → List Round
acknowledged_rounds [] rs = rs
acknowledged_rounds (c ∷ cs) rs =
    record { chunk_read = chunk c; written = true; ack = some 0 } ∷ acknowledged_rounds cs rs

send_rounds-refused :
    (size cur : ℕ) (sent : List Frame) (cs : List (List ℕ)) (bytes : List ℕ) (written : Bool)
    (ack : Option ℕ) (rs : List Round)
    → (written && acknowledged ack) ≡ false
    → send_rounds size cur sent (
        acknowledged_rounds cs
          (record { chunk_read = chunk bytes; written = written; ack = ack } ∷ rs))
      ≡ send_failed (sent ++ frames_of size cur (cs ++ bytes ∷ []))
unfolding send_rounds
send_rounds-refused size cur sent [] bytes false ack rs h = refl
send_rounds-refused size cur sent [] bytes true ack rs h = rw h
send_rounds-refused size cur sent (c ∷ cs) bytes written ack rs h =
    send_rounds-refused size (suc cur) (sent ++ frame size cur c ∷ []) cs bytes written ack rs h
    ∙ ap send_failed
        (append_snoc sent (frames_of size (suc cur) (cs ++ bytes ∷ [])) (frame size cur c))

-- When, after chunks that are sent and acknowledged, a frame cannot be written or is not acknowledged
-- with success, send_file returns -1 whatever comes after, and that frame is the last that it tries
-- to send.
pub send_file-send_failed :
    (size : ℕ) (cs : List (List ℕ)) (bytes : List ℕ) (written : Bool) (ack : Option ℕ)
    (rs : List Round)
    → (written && acknowledged ack) ≡ false
    → send_file (some size) (
        acknowledged_rounds cs
          (record { chunk_read = chunk bytes; written = written; ack = ack } ∷ rs))
      ≡ send_failed (frames_of size 1 (cs ++ bytes ∷ []))
unfolding send_file
send_file-send_failed size cs bytes written ack rs h =
    send_rounds-refused size 1 [] cs bytes written ack rs h
