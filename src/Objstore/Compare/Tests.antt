-- ===== src/Objstore/Compare/Tests.antt =====
-- CompareStreams at concrete readers.
use io_stress.Common.{ℕ, ◌≤◌, ◌≡◌, refl, inl, inr, some, none, List, [], ◌∷◌, arith, length}
use io_stress.Objstore.Keys.{hex_byte}
use io_stress.Objstore.Reader.{eof, broken, Piece, Reader, read, read_full, content}
use io_stress.Objstore.Reader.Laws.{Ends, Steady}
use io_stress.Objstore.Compare.{
  StreamMismatch, differs, failed, compare_streams, first_loop, first_body, extra_loop, extra_body,
  compare_round, extra_round, expected_ended, note_bytes, note_byte, report, start, hex,
}
use io_stress.Objstore.Compare.Loops.{Reports, compare_streams-Reports}
use io_stress.Objstore.Compare.Windows.{compare_streams-windows}

abbrev piece : List ℕ → Piece
piece bs = record { bytes = bs; err = none }

-- The digest stands for itself.
abbrev plain : List ℕ → List ℕ
plain bs = bs

abbrev expected : Reader
expected = piece (97 ∷ 98 ∷ 99 ∷ []) ∷ piece (100 ∷ []) ∷ []

abbrev actual : Reader
actual = piece (97 ∷ []) ∷ piece [] ∷ record { bytes = 98 ∷ 120 ∷ []; err = some eof } ∷ []

abbrev reported : StreamMismatch
reported = record {
  size = 4;
  expected_sha = 54 ∷ 49 ∷ 54 ∷ 50 ∷ 54 ∷ 51 ∷ 54 ∷ 52 ∷ [];
  actual_sha = 54 ∷ 49 ∷ 54 ∷ 50 ∷ 55 ∷ 56 ∷ [];
  first_bad_byte = 2;
  expected_hex = 54 ∷ 49 ∷ 54 ∷ 50 ∷ 54 ∷ 51 ∷ 54 ∷ 52 ∷ [];
  actual_hex = 54 ∷ 49 ∷ 54 ∷ 50 ∷ 55 ∷ 56 ∷ [];
}

third_byte : compare_streams plain expected actual ≡ some (differs reported)
unfolding compare_streams first_loop first_body extra_loop extra_body compare_round extra_round
    expected_ended note_bytes note_byte report start hex read read_full hex_byte
third_byte = refl

broken_actual :
    compare_streams plain expected (record { bytes = 97 ∷ []; err = some (broken 7) } ∷ [])
    ≡ some (failed (broken 7))
unfolding compare_streams first_loop first_body extra_loop extra_body compare_round extra_round
    expected_ended note_bytes note_byte report start hex read read_full hex_byte
broken_actual = refl

expected-Steady : Steady expected
expected-Steady = inl (refl, omega arith, inl (refl, omega arith, tt))

actual-Ends : Ends actual
actual-Ends = inl (refl, inl (refl, inr (refl, refl)))

compare_streams-Reports_example :
    Reports plain (content expected) (content actual) (compare_streams plain expected actual)
compare_streams-Reports_example =
    compare_streams-Reports plain expected actual expected-Steady actual-Ends

compare_streams-windows_run :
    (length reported.expected_hex ≤ 258) × (length reported.actual_hex ≤ 258)
compare_streams-windows_run = compare_streams-windows plain expected actual reported third_byte
