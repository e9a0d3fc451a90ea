-- ===== src/Upgrade/Transfer.antt =====
-- send_file of Z_my_work_upgrade/test_client.c: a file in numbered frames, each acknowledged.
pub mod Whole
use bo_atom.Prelude.{
  ℕ, zero, suc, ◌+◌, ◌-◌, ◌/◌, ◌%◌, ◌^◌, Bool, true, false, not, Option, none, some, List, [], ◌∷◌,
  ◌++◌, ◌==◌, if◌then◌else◌, length,
}
use bo_atom.Upgrade.Crc.{crc32}

-- SND_BUFSIZE, and the sizes of the packed tagMsgHead_t and app_net_tcp_sys_update_head_t
abbrev pub snd_bufsize : ℕ
snd_bufsize = 1280

abbrev pub msg_header_len : ℕ
msg_header_len = 32

abbrev pub update_head_len : ℕ
update_head_len = 36

-- the room for the file's bytes in a frame
abbrev pub room : ℕ
room = snd_bufsize - msg_header_len - update_head_len

-- The fields of tagMsgHead_t that BUILD_MSG_HEADER2 sets.
pub record MsgHead : Type 0 where
  pub cmd_type : ℕ
  pub cmd_sub_type : ℕ
  pub data_type : ℕ
  pub pktlen : ℕ
  pub version : ℕ
  pub hwtype : ℕ
  pub sn : ℕ

abbrev pub build_msg_header2 : ℕ → ℕ → ℕ → ℕ → ℕ → MsgHead
build_msg_header2 cmd_type cmd_sub_type data_type pkt_len sn = record {
  cmd_type = cmd_type;
  cmd_sub_type = cmd_sub_type;
  data_type = data_type;
  pktlen = pkt_len;
  version = 21;
  hwtype = 1;
  sn = sn;
}

-- A frame: that head, the fields of app_net_tcp_sys_update_head_t that send_file sets, and the bytes
-- of the file.
pub record Frame : Type 0 where
  pub head : MsgHead
  pub cur_frame : ℕ
  pub file_len : ℕ
  pub crc : List Bool
  pub total_frame : ℕ
  pub payload : List ℕ

-- `ceil(st_size / (SND_BUFSIZE - headers))`
abbrev pub frames_for : ℕ → ℕ
frames_for size = (size + (room - 1)) / room

-- NET_SYS, SYS_NUCLEAR_UPDATE and DATA_TYPE_CMD are 1, 10 and 1.
abbrev pub frame : ℕ → ℕ → List ℕ → Frame
frame size cur bytes = record {
  head = build_msg_header2 1 10 1 (msg_header_len + update_head_len + length bytes) 1;
  cur_frame = cur;
  file_len = size % 2 ^ 32;
  crc = crc32 bytes;
  total_frame = frames_for size;
  payload = bytes;
}

-- How `read` of the file returns.
pub data Chunk : Type 0 where
  chunk : List ℕ → Chunk
  chunk_end chunk_error : Chunk

-- The answers of one round: the chunk, whether writen returns 0, and the status that readn brings,
-- none if it fails.
pub record Round : Type 0 where
  pub chunk_read : Chunk
  pub written : Bool
  pub ack : Option ℕ

-- How send_file returns, 0 or -1, with the frames that were handed to writen; `pending` while the
-- answers last.
pub data Result : Type 0 where
  sent_all send_failed pending : List Frame → Result

-- APP_NET_TCP_STATE_SUCCESS is 0.
abbrev pub acknowledged : Option ℕ → Bool
acknowledged none = false
acknowledged (some status) = status == 0

-- the loop of send_file
unfoldable pub send_rounds : ℕ → ℕ → List Frame → List Round → Result
send_rounds size cur sent [] = pending sent
send_rounds size cur sent (r ∷ rs) = elim r.chunk_read [
  | chunk_end ↦ sent_all sent
  | chunk_error ↦ send_failed sent
  | chunk bytes ↦
      (let sent' = sent ++ frame size cur bytes ∷ [] in
        let more = send_rounds size (suc cur) sent' rs in
        if not r.written
        then send_failed sent'
        else if acknowledged r.ack
        then more
        else send_failed sent')
]

-- send_file; the first argument is the size that fstat gives, none if it fails
unfoldable pub send_file : Option ℕ → List Round → Result
unfolding send_rounds
send_file none rs = send_failed []
send_file (some size) rs = send_rounds size 1 [] rs
