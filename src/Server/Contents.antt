-- ===== src/Server/Contents.antt =====
-- raft-server/src/storage.rs: what a replay yields of a log file with known contents.
use raft_rupee.Base.{
  suc, ◌+◌, ◌-◌, ◌*◌, ◌≤◌, ◌≡◌, refl, sym, ap, ◌∙◌, List, [], ◌∷◌, ◌++◌, some, arith, length, All,
  length-append, append_assoc, All-append, All-append_right, subst, some_inj,
}
use raft_rupee.Message.{Bytes, LogEntry}
use raft_rupee.Server.Bytes.{IsByte}
use raft_rupee.Server.Os.{System, IsSystem}
use raft_rupee.Server.Storage.{encode_entry, encode, read_entry, replay_loop, replay}
use raft_rupee.Server.Entry.{IsEntry, length-encode_entry, read_entry-drop}
use raft_rupee.Server.Replay.{Holds, replay_ends, replay_loop-encode, loop_stops, reads_none}

pub encode-append :
    (os : System) (es fs : List LogEntry) → encode os (es ++ fs) ≡ encode os es ++ encode os fs
unfolding encode
encode-append os [] fs = refl
encode-append os (e ∷ es) fs =
    ap (λ bs. encode_entry os e ++ bs) (encode-append os es fs)
    ∙ sym (append_assoc (encode_entry os e) (encode os es) (encode os fs))

length-encode : (os : System) (es : List LogEntry) → 24 * length es ≤ length (encode os es)
unfolding encode
length-encode os [] = omega arith
length-encode os (e ∷ es) = omega (
  arith,
  length-append {0} (encode_entry os e) (encode os es),
  length-encode_entry os e,
  length-encode os es,
)

-- A replay yields the entries that the file holds.
pub Holds-replay :
    (os : System) (file : Bytes) (es : List LogEntry) (rest : Bytes)
    → IsSystem os
    → All IsByte rest
    → Holds os file es rest
    → replay os file ≡ some es
unfolding replay
Holds-replay os file es rest is_os bytes holds =
    let size = ap length holds.split in
    let k = length file - length es in
    let rounds : suc (length file) ≡ length es + suc k =
      omega (arith, size, length-append {0} (encode os es) rest, length-encode os es) in
    let (end, at_end, run) =
      replay_loop-encode os file es rest (suc k) 0 [] is_os holds.are_entries (sym holds.split) in
    ap (λ n. replay_loop os n file 0 []) rounds
    ∙ run
    ∙ loop_stops os k file end es (
        read_entry-drop os file end
        ∙ ap (λ bs. read_entry os bs 0) at_end
        ∙ reads_none os rest is_os bytes holds.no_more)

-- The entries that are written to a log file are read back in order, before whatever a replay of the
-- bytes behind them yields.
pub replay-encode :
    (os : System) (es fs : List LogEntry) (rest : Bytes)
    → IsSystem os
    → All IsEntry es
    → All IsByte rest
    → replay os rest ≡ some fs
    → replay os (encode os es ++ rest) ≡ some (es ++ fs)
replay-encode os es fs rest is_os are_entries bytes read =
    let (gs, tail, holds, found) = replay_ends os rest is_os bytes in
    let same : gs ≡ fs = some_inj (sym found ∙ read) in
    let whole : encode os (es ++ gs) ++ tail ≡ encode os es ++ rest =
      ap (λ bs. bs ++ tail) (encode-append os es gs)
      ∙ append_assoc (encode os es) (encode os gs) tail
      ∙ ap (λ bs. encode os es ++ bs) holds.split in
    let tail_bytes : All IsByte tail =
      All-append_right IsByte (encode os gs) tail (subst (All IsByte) (sym holds.split) bytes) in
    Holds-replay os (encode os es ++ rest) (es ++ gs) tail is_os tail_bytes (record {
      split = whole;
      are_entries = All-append IsEntry es gs are_entries holds.are_entries;
      no_more = holds.no_more;
    })
    ∙ ap (λ l. some (es ++ l)) same
