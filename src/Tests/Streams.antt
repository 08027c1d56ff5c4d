-- ===== src/Tests/Streams.antt =====
-- Streams in memory: a reader over the bytes that are left, and a writer over those written.
use chatix_protocol.Base.{
  ℕ, ◌≤◌, ◌<◌, ◌≡◌, refl, arith, List, ◌++◌, ok, err, leb, if◌then◌else◌, length, take, drop,
}
use chatix_protocol.Error.{IoError, IoResult, data_error}
use chatix_protocol.Codec.Interfaces.{Reader, Delivers, Writer, Collects}

abbrev pub end_of_file : IoError
end_of_file = data_error "end of file"

abbrev pub take_front : List ℕ → ℕ → IoResult (List ℕ)
take_front r n = if leb n (length r) then ok (take n r) else err end_of_file

pub take_front-enough : (r : List ℕ) (n : ℕ) → n ≤ length r → take_front r n ≡ ok (take n r)
take_front-enough r n h = ground arith

pub take_front-short : (r : List ℕ) (n : ℕ) → length r < n → take_front r n ≡ err end_of_file
take_front-short r n h = ground arith

abbrev pub memory : Reader
memory = record { R = List ℕ; read_exact = λ r n. (take_front r n, drop n r) }

abbrev pub memory-Delivers : Delivers memory
memory-Delivers = record {
  pending = λ r. r;
  eof = end_of_file;
  enough = take_front-enough;
  short = take_front-short;
  rest = λ r n. refl;
}

abbrev pub buffer : Writer
buffer = record { W = List ℕ; write_all = λ w bs. (ok tt, w ++ bs); flush = λ w. (ok tt, w) }

abbrev pub buffer-Collects : Collects buffer
buffer-Collects = record {
  written = λ w. w;
  write_all_ok = λ w bs. refl;
  write_all_written = λ w bs. refl;
  flush_ok = λ w. refl;
  flush_written = λ w. refl;
}
