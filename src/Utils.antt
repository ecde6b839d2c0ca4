-- ===== src/Utils.antt =====
-- The file reader of src/utils.c.
use rve.Base.{ℕ, Option, none, some, List, take, ◌==◌, if◌then◌else◌}
use rve.Text.Buffer.{store}

-- A file that could be opened: the size that `ftell` gives, and the bytes that `fread` delivers.
pub record OpenFile : Type 0 where
  pub told : ℕ
  pub content : List ℕ

-- The result -1; a write through a NULL pointer; or the buffer and its size.
pub data FileResult : Type 0 where
  failed undefined : FileResult
  loaded : (ℕ → ℕ) → ℕ → FileResult

-- The second argument is what `malloc` returns. The test behind it looks at `buffer`, which is not
-- NULL, and not at `*buffer`.
unfoldable pub rve_file_to_string : Option OpenFile → Option (ℕ → ℕ) → FileResult
unfolding store
rve_file_to_string none room = failed
rve_file_to_string (some file) none = undefined
rve_file_to_string (some file) (some fresh) =
    let filled = store (take file.told file.content) 0 fresh in
    loaded (λ j. if j == file.told then 0 else filled j) file.told
