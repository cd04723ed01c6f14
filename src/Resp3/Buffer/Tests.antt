-- ===== src/Resp3/Buffer/Tests.antt =====
-- resp3/buffer.hpp: runs on a buffer of four bytes with two unread.
use rediscoro.Prelude.{◌≡◌, refl, some, none, [], ◌∷◌, ◌++◌, arith}
use rediscoro.Resp3.Buffer
use rediscoro.Resp3.Buffer.{
  Buffer, View, contents, prepare, commit, consume, compact, fill, read_view, resize,
}
use rediscoro.Resp3.Buffer.Laws.{IsValid, Prepared, prepare_lem, commit-fill}
use rediscoro.Resp3.Buffer.Views.{Refers, read_view-prepare}

abbrev small : Buffer
small = record { cells = 7 ∷ 8 ∷ 9 ∷ 0 ∷ []; block = 0; read_pos = 1; write_pos = 3 }

small-IsValid : IsValid small
small-IsValid = record { order = omega arith; inside = omega arith; nonempty = omega arith }

abbrev view : View
view = record { block = 0; offset = 1; len = 2 }

view-Refers : Refers small view
view-Refers = record { alive = refl; within = omega arith }

prepare_lem_example : (b' : Buffer) × (prepare small 3 ≡ some b') × Prepared small 3 b'
prepare_lem_example = prepare_lem small 3 small-IsValid (omega arith)

commit-fill_example :
    (b' : Buffer) × (commit (fill small (5 ∷ [])) 1 ≡ some b')
    × IsValid b'
    × (contents b' ≡ contents small ++ (5 ∷ []))
commit-fill_example = commit-fill small (5 ∷ []) small-IsValid (omega arith)

small_prepared : prepare small 3 ≡ some (resize small 8)
unfolding prepare Buffer.grow_size
small_prepared = refl

read_view-prepare_example : read_view (resize small 8) view ≡ none
read_view-prepare_example =
    read_view-prepare small (resize small 8) 3 view small-IsValid (omega arith) view-Refers
      (omega arith) (omega arith) small_prepared
