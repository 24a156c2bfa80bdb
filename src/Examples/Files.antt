-- ===== src/Examples/Files.antt =====
-- The readers and the validation on a file of five bytes and one of six, with chunks of two.
use subfile_data_service.Prelude.{Bytes, codes, refl, arith, ◌≡◌, ◌↔◌, take, List}
use subfile_data_service.Rust.Result.{ok, panic}
use subfile_data_service.Rust.Words.{debug, release}
use subfile_data_service.System.{Fills}
use subfile_data_service.Subfile.Reader.{read_chunk, chunk_file, format_path}
use subfile_data_service.Subfile.Reader.Ranges.{range_of, read_chunk-eq-range_of}
use subfile_data_service.Subfile.Reader.Chunks.{IsCut, chunk_file-Reads}
use subfile_data_service.Subfile.ChunkFiles.{new, push, read_and_validate_file}
use subfile_data_service.Subfile.Validate.Chunk.{published}
use subfile_data_service.Subfile.Validate.Files.{
  read_and_validate_file_iff, read_and_validate_file-panic,
}
use subfile_data_service.Subfile.Published.{new-eq-published, published_validates}
use subfile_data_service.Examples.World.{
  plain, plain-CollisionFree, five, six, handle_of, disk, disk-Holds, five-bounded, six-bounded,
  five_meta, six_meta, subfile_of,
}

read_chunk-eq-range_of_example :
    read_chunk release (disk five) (codes "f") (1, 3) ≡ range_of release five 1 3
read_chunk-eq-range_of_example =
    read_chunk-eq-range_of (disk five) (codes "f") five (disk-Holds (codes "f") five five-bounded)
      release 1 3

chunk_file-Reads_example :
    (chunks : List Bytes) × (chunk_file debug (disk five) 6 (codes "f") 2 ≡ ok (5, chunks))
    × IsCut 2 five chunks
chunk_file-Reads_example =
    chunk_file-Reads debug (disk five) (codes "f") five (disk-Holds (codes "f") five five-bounded) 2
      (omega arith) (omega arith) (λ pos n. n) 6
      (record {
        some_of = λ pos n. refl;
        at_most = λ pos n. omega arith;
        progress = λ pos n some_room more. omega arith;
      })
      (omega arith)

Fills-five : Fills (handle_of five) five
Fills-five = record { filled = λ pos n. refl }

new-eq-published_example :
    new debug (disk five) plain 4 (codes "/data") (codes "five") 2 ≡ ok (published plain 2 five)
new-eq-published_example =
    new-eq-published debug (disk five) plain (codes "/data") (codes "five") five
      (disk-Holds (format_path (codes "/data") (codes "five")) five five-bounded) Fills-five 2 4
      (omega arith) (omega arith) (omega arith)

made_five :
    new debug (disk five) plain 4 (codes "/data") (codes "five") 2 ≡ ok (five_meta.chunk_file)
made_five =
    new-eq-published debug (disk five) plain (codes "/data") (codes "five") five
      (disk-Holds (format_path (codes "/data") (codes "five")) five five-bounded) Fills-five 2 4
      (omega arith) (omega arith) (omega arith)

published_validates_example :
    read_and_validate_file release (disk five) plain (subfile_of five_meta) five_meta ≡ ok tt
published_validates_example =
    published_validates debug (disk five) plain (codes "/data") (codes "five") five
      (disk-Holds (format_path (codes "/data") (codes "five")) five five-bounded) Fills-five 2 4
      (omega arith) (omega arith) (omega arith) release (disk five) (subfile_of five_meta) five_meta
      plain-CollisionFree (disk-Holds (push (codes "/data") (codes "five")) five five-bounded)
      made_five (omega arith)

read_and_validate_file_iff_example :
    (read_and_validate_file debug (disk six) plain (subfile_of five_meta) five_meta ≡ ok tt)
    ↔ (take 5 six ≡ five)
read_and_validate_file_iff_example =
    read_and_validate_file_iff debug (disk six) plain plain-CollisionFree (subfile_of five_meta)
      five_meta six five (disk-Holds (push (codes "/data") (codes "five")) six six-bounded) 2 refl
      (omega arith) (omega arith) five-bounded (omega arith)

read_and_validate_file-panic_example :
    read_and_validate_file release (disk six) plain (subfile_of six_meta) six_meta ≡ panic
read_and_validate_file-panic_example =
    read_and_validate_file-panic release (disk six) plain plain-CollisionFree (subfile_of six_meta)
      six_meta six six (disk-Holds (push (codes "/data") (codes "six")) six six-bounded) 2 refl
      (omega arith) (omega arith) six-bounded 3 (omega arith) refl
