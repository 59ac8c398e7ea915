-- ===== src/Tests/Logging.antt =====
-- Log lines in a buffer that is a list of bytes.
use odp_platform_radxa_orion.Common.{
  ℕ, ◌+◌, ◌≡◌, some, none, refl, List, [], ◌∷◌, ◌++◌, leb, if◌then◌else◌, le→leb, lt→leb,
}
use odp_platform_radxa_orion.Common.Lists.{length, take}
use odp_platform_radxa_orion.Patina.{
  info, log_level_str, Heapless, IsHeapless, is_char_boundary, write_all, end_line, close_line,
  format_log_message,
}
use odp_platform_radxa_orion.Patina.Lines.{Closed, prefix, log_line-Closed}

abbrev heapless : Heapless (List ℕ)
heapless = record {
  new = [];
  as_bytes = λ s. s;
  push_str = λ s text. if leb (length s + length text) 256 then some (s ++ text) else none;
  truncate = λ s n. if is_char_boundary s n then some (take n s) else none;
}

heapless-IsHeapless : IsHeapless heapless
heapless-IsHeapless = record {
  new_empty = refl;
  push_fits = λ s text h. (s ++ text, rw (le→leb (length s + length text) 256 h) refl, refl);
  push_full = λ s text h. rw (lt→leb (length s + length text) 256 h) refl;
  truncates = λ s n h e. (take n s, rw e refl, refl);
  truncate_panics = λ s n h e. rw e refl;
}

-- "hi" in two pieces
short_line :
    format_log_message heapless (log_level_str info) ((104 ∷ []) ∷ (105 ∷ []) ∷ [])
    ≡ some (prefix info ++ 104 ∷ 105 ∷ 13 ∷ 10 ∷ [])
unfolding format_log_message write_all close_line end_line
short_line = refl

log_line-Closed_example :
    Closed heapless
      (prefix info ++ (104 ∷ 105 ∷ []))
      (format_log_message heapless (log_level_str info) ((104 ∷ []) ∷ (105 ∷ []) ∷ []))
log_line-Closed_example =
    log_line-Closed heapless heapless-IsHeapless info ((104 ∷ []) ∷ (105 ∷ []) ∷ [])
