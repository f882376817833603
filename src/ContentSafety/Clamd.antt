-- ===== src/ContentSafety/Clamd.antt =====
-- The exchange with clamd: `sendToClamd` of src/modules/media/content-safety.validator.ts. The
-- decoding of UTF-8 is the library's, a parameter.
use media_service.Base.{
  ℕ, zero, suc, ◌+◌, ◌*◌, ◌/◌, ◌%◌, ◌≤◌, ◌<◌, ◌≡◌, refl, sym, ap, ◌∙◌, inl, inr, false, ◌⊎◌, Option,
  none, some, List, [], ◌∷◌, ◌++◌, Text, codes, trim, length, length-append, take, drop, ltb, ◌==◌,
  arith, Bool-cases, if◌then◌else◌, map_some, map, starts_with,
}
use media_service.Errors.{Error, Result, ok, err}

-- `writeUInt32BE`, which throws where the number has more than 32 bits.
unfoldable pub write_uint32_be : ℕ → Option (List ℕ)
write_uint32_be n =
    if ltb n 4294967296
    then some (n / 16777216 ∷ n / 65536 % 256 ∷ n / 256 % 256 ∷ n % 256 ∷ [])
    else none

abbrev pub instream_command : List ℕ
instream_command = codes "zINSTREAM" ++ 0 ∷ []

-- Where the length cannot be written, the command has been written before the throw.
abbrev with_length : List ℕ → Option (List ℕ) → List ℕ × Result (Unit {0})
with_length buffer none = (instream_command, err Error.fault)
with_length buffer (some length_bytes) =
    (instream_command ++ (length_bytes ++ (buffer ++ 0 ∷ 0 ∷ 0 ∷ 0 ∷ [])), ok tt)

-- What is written when the socket is connected, and whether the writes return or throw.
unfoldable pub instream : List ℕ → List ℕ × Result (Unit {0})
instream buffer = with_length buffer (write_uint32_be (length buffer))

-- What the socket reports.
pub data SocketEvent : Type 0 where
  data_read : List ℕ → SocketEvent
  ended timed_out failed : SocketEvent

-- How the promise is settled, if it is: by the first event that is no data.
unfoldable pub settle : (List ℕ → Text) → List ℕ → List SocketEvent → Option (Result Text)
settle decode chunks [] = none
settle decode chunks (SocketEvent.data_read chunk ∷ events) = settle decode (chunks ++ chunk) events
settle decode chunks (SocketEvent.ended ∷ events) = some (ok (trim (decode chunks)))
settle decode chunks (SocketEvent.timed_out ∷ events) = some (err Error.fault)
settle decode chunks (SocketEvent.failed ∷ events) = some (err Error.fault)

-- The reading of a stream as clamd documents it: chunks, each behind its length, up to one of
-- length 0.
unfoldable pub read_chunks : ℕ → List ℕ → Option (List ℕ)
read_chunks zero bytes = none
read_chunks (suc fuel) (a ∷ b ∷ c ∷ d ∷ rest) =
    let n = ((a * 256 + b) * 256 + c) * 256 + d in
    let more = read_chunks fuel (drop n rest) in
    if n == 0
    then some []
    else if ltb (length rest) n
    then none
    else map_some (λ bytes. take n rest ++ bytes) more
read_chunks (suc fuel) bytes = none

unfoldable pub read_instream : List ℕ → Option (List ℕ)
read_instream bytes =
    if starts_with bytes instream_command then read_chunks 2 (drop 10 bytes) else none

take-append : (xs ys : List ℕ) → take (length xs) (xs ++ ys) ≡ xs
take-append [] ys = refl
take-append (x ∷ xs) ys = ap (λ t. x ∷ t) (take-append xs ys)

drop-append : (xs ys : List ℕ) → drop (length xs) (xs ++ ys) ≡ ys
drop-append [] ys = refl
drop-append (x ∷ xs) ys = drop-append xs ys

from_bytes :
    (n : ℕ)
    → n < 4294967296
    → ((n / 16777216 * 256 + n / 65536 % 256) * 256 + n / 256 % 256) * 256 + n % 256 ≡ n
from_bytes n h = omega arith

append-nil : (xs : List ℕ) → xs ++ [] ≡ xs
append-nil [] = refl
append-nil (x ∷ xs) = ap (λ t. x ∷ t) (append-nil xs)

-- The end of the stream, by its length.
abbrev end_of_stream : List ℕ
end_of_stream = 0 ∷ 0 ∷ 0 ∷ 0 ∷ []

chosen :
    (n : ℕ) (rest buffer : List ℕ) (more : Option (List ℕ))
    → n ≡ length buffer
    → rest ≡ buffer ++ end_of_stream
    → more ≡ some []
    → (if n == 0
        then some []
        else if ltb (length rest) n
        then none
        else map_some (λ bytes. take n rest ++ bytes) more)
      ≡ some buffer
chosen n rest [] more e r m = rw e
chosen n rest (x ∷ buffer) more e r m =
    let k = length (x ∷ buffer) in
    let size = ap (λ (t : List ℕ). length t) r ∙ length-append (x ∷ buffer) end_of_stream in
    let read = ap (λ j. take j rest) e ∙ ap (take k) r ∙ take-append (x ∷ buffer) end_of_stream in
    let positive : (n == 0) ≡ false = ground arith in
    let long : ltb (length rest) n ≡ false = ground arith in
    rw (positive, long, m) (ap some (append-nil (take n rest) ∙ read))

read_chunk-back :
    (a b c d : ℕ) (buffer : List ℕ)
    → ((a * 256 + b) * 256 + c) * 256 + d ≡ length buffer
    → read_chunks 2 (a ∷ b ∷ c ∷ d ∷ (buffer ++ end_of_stream)) ≡ some buffer
unfolding read_chunks
read_chunk-back a b c d buffer e =
    let n = ((a * 256 + b) * 256 + c) * 256 + d in
    let rest = buffer ++ end_of_stream in
    chosen n rest buffer (read_chunks 1 (drop n rest)) e refl (
      ap (λ k. read_chunks 1 (drop k rest)) e
      ∙ ap (read_chunks 1) (drop-append buffer end_of_stream))

-- What is written for a buffer of less than 4 GiB is a stream that clamd reads as the bytes of the
-- buffer; for a larger one only the command is written before the write of the length throws, and
-- clamd reads no buffer from that.
pub instream_roundtrip :
    (buffer : List ℕ)
    → ((length buffer < 4294967296)
        × ((bytes : List ℕ) × (instream buffer ≡ (bytes, ok tt))
            × (read_instream bytes ≡ some buffer)))
      ⊎ ((4294967296 ≤ length buffer)
          × (instream buffer ≡ (codes "zINSTREAM" ++ 0 ∷ [], err Error.fault))
          × (read_instream (instream buffer).0 ≡ none))
unfolding instream write_uint32_be read_instream read_chunks starts_with
instream_roundtrip buffer = elim (Bool-cases (ltb (length buffer) 4294967296)) [
  | inl fits ↦ inl (
    ground arith,
    (
      instream_command
          ++ (length buffer / 16777216
              ∷ length buffer / 65536 % 256
              ∷ length buffer / 256 % 256
              ∷ length buffer % 256
              ∷ (buffer ++ end_of_stream)),
      rw fits refl,
      read_chunk-back (length buffer / 16777216) (length buffer / 65536 % 256)
          (length buffer / 256 % 256) (length buffer % 256) buffer
          (from_bytes (length buffer) (ground arith)),
    ),
  )
  | inr large ↦ inr (ground arith, rw large refl, rw large refl)
]

-- The bytes that the data events bring before any other event.
abbrev received : List (List ℕ) → List ℕ
received [] = []
received (chunk ∷ chunks) = chunk ++ received chunks

append_assoc : (xs ys zs : List ℕ) → (xs ++ ys) ++ zs ≡ xs ++ (ys ++ zs)
append_assoc [] ys zs = refl
append_assoc (x ∷ xs) ys zs = ap (λ t. x ∷ t) (append_assoc xs ys zs)

settle_from :
    (decode : List ℕ → Text) (before : List ℕ) (chunks : List (List ℕ)) (later : List SocketEvent)
    → settle decode before (map SocketEvent.data_read chunks ++ SocketEvent.ended ∷ later)
      ≡ some (ok (trim (decode (before ++ received chunks))))
unfolding settle
settle_from decode before [] later = ap (λ b. some (ok (trim (decode b)))) (sym (append-nil before))
settle_from decode before (chunk ∷ chunks) later =
    settle_from decode (before ++ chunk) chunks later
    ∙ ap (λ b. some (ok (trim (decode b)))) (append_assoc before chunk (received chunks))

-- If the connection ends before it fails or times out, the answer is the text of all the bytes that
-- came, whatever follows; it does not depend on how they were cut into chunks.
pub settle_lem :
    (decode : List ℕ → Text) (chunks : List (List ℕ)) (later : List SocketEvent)
    → settle decode [] (map SocketEvent.data_read chunks ++ SocketEvent.ended ∷ later)
      ≡ some (ok (trim (decode (received chunks))))
settle_lem decode chunks later = settle_from decode [] chunks later
