-- ===== src/StreamBuffer/Tests.antt =====
-- Runs of the stream buffer, with a buffer of sixteen bytes.
use ignore_gates.Prelude.{◌≡◌, ◌||◌, not, false, refl, [], ◌∷◌, arith}
use ignore_gates.Formula.{read_clauses, empty}
use ignore_gates.Features.GateReport.{Bytes, codes}
use ignore_gates.StreamBuffer.{
  StreamBuffer, done, overrun, is_space, is_blank, content, skip_line, check_refill_buffer,
  open_stream, read_dimacs_from_file,
}
use ignore_gates.StreamBuffer.Refill.{IsReady, Refilled, check_refill_buffer-Refilled}
use ignore_gates.StreamBuffer.Skips.{drop_while, skip_line-Refilled}

abbrev two_lines : Bytes
two_lines = codes "c a comment\n 1 -2 0\n"

abbrev unread : StreamBuffer
unread = record { file = two_lines; ahead = []; kept = []; end_of_file = false }

abbrev at_comment : StreamBuffer
at_comment = record {
  file = codes "-2 0\n";
  ahead = codes "c a comment\n 1 ";
  kept = codes " ";
  end_of_file = false;
}

at_comment-IsReady : IsReady at_comment
at_comment-IsReady = record { ended = λ e. ground (arith, e); ready = λ e. ground (arith, e) }

check_refill_buffer-Refilled_example : Refilled 16 two_lines (check_refill_buffer 16 unread)
check_refill_buffer-Refilled_example =
    check_refill_buffer-Refilled 16 unread (λ e. ground (arith, e))

skip_line-Refilled_example :
    Refilled 16
      (drop_while is_space (drop_while (λ c. not (is_space c) || is_blank c) (content at_comment)))
      (skip_line 16 at_comment)
skip_line-Refilled_example = skip_line-Refilled 16 at_comment at_comment-IsReady

read_dimacs-two_lines :
    read_dimacs_from_file 16 two_lines ≡ done (read_clauses empty ((2 ∷ 5 ∷ []) ∷ []))
unfolding read_dimacs_from_file read_clauses
read_dimacs-two_lines = refl

open_stream-word : open_stream 4 (codes "12345 ") ≡ overrun (codes "1234")
unfolding open_stream
open_stream-word = refl
