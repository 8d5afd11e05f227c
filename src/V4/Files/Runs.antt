-- ===== src/V4/Files/Runs.antt =====
-- Runs of the read and write loops against small servers.
use nfs.Prelude.{
  ℕ, ◌+◌, ◌-◌, ◌≤◌, ◌<◌, ◌≡◌, refl, sym, ap, true, false, ◌⊎◌, inl, inr, none, List, [], ◌∷◌, arith,
  min, leb, leb→le, le→leb, ltb, ltb→lt, Bool-cases, length, take, drop, take-all, replicate,
}
use nfs.Prelude.Outcome.{Result, ok, err}
use nfs.Error.{Error, protocol}
use nfs.V4.Args.{Bytes}
use nfs.V4.Transfer.{StableHow}
use nfs.V4.Operation.{Operation}
use nfs.V4.Response.{CompoundResponse}
use nfs.V4.Files.{
  Compounds, OpenedFile, read_operations, write_operations, read_opened_to_end,
  read_opened_range_vec, write_opened_at,
}
use nfs.V4.Files.Reads.{Reads, read_reply}
use nfs.V4.Files.Contents.{read_opened_to_end-content, read_opened_range_vec-content}
use nfs.V4.Files.Writes.{Stores, Commits, splice, write_reply, commit_reply, write_opened_at-stored}

abbrev content : Bytes
content = 7 ∷ 8 ∷ 9 ∷ []

abbrev opened : OpenedFile
opened = record { handle = 1 ∷ []; stateid = record { seqid = 1; other = replicate 12 4 } }

-- A server that answers at most two bytes at a time.
abbrev amount : ℕ → ℕ → ℕ
amount offset count = min (min count 2) (3 - offset)

abbrev read_answer : List Operation → Result Error CompoundResponse
read_answer (Operation.put_fh handle ∷ (Operation.read stateid offset count ∷ [])) = ok (
    read_reply [] none (leb 3 (offset + amount offset count))
      (take (amount offset count) (drop offset content)))
read_answer _ = err (protocol "not a read")

abbrev reader : Compounds (Unit {0})
reader = record {
  compound = λ operations s. (read_answer operations, s);
  read_size = λ s. 2;
  write_size = λ s. 2;
}

reader-Reads :
    (s : Unit {0}) (offset count : ℕ)
    → 0 < count
    → Reads content offset count (reader.compound (read_operations reader opened offset count) s).0
reader-Reads s offset count h = record {
  tag = [];
  sequence = none;
  eof = leb 3 (offset + amount offset count);
  n = amount offset count;
  answered = refl;
  within = omega arith;
  moves_on = by_place (Bool-cases (ltb offset 3));
  ends = by_end (Bool-cases (leb 3 (offset + amount offset count)));
}
  where
    by_place :
        (ltb offset 3 ≡ true) ⊎ (ltb offset 3 ≡ false)
        → ((0 < amount offset count) × (offset + amount offset count ≤ 3))
          ⊎ ((leb 3 (offset + amount offset count) ≡ true) × (3 ≤ offset))
    by_place (inl e) =
        let inside = ltb→lt offset 3 e in inl (omega (arith, h, inside), omega (arith, inside))
    by_place (inr e) =
        let behind : 3 ≤ offset = ground (arith, e) in
        inr (le→leb 3 (offset + amount offset count) (omega (arith, behind)), behind)

    by_end :
        (leb 3 (offset + amount offset count) ≡ true)
          ⊎ (leb 3 (offset + amount offset count) ≡ false)
        → (leb 3 (offset + amount offset count) ≡ false) ⊎ (3 ≤ offset + amount offset count)
    by_end (inl e) = inr (leb→le 3 (offset + amount offset count) e)
    by_end (inr e) = inl e

read_opened_to_end-content_example : (read_opened_to_end reader opened tt).0 ≡ ok content
read_opened_to_end-content_example =
    read_opened_to_end-content reader opened content reader-Reads (λ s. omega arith) (omega arith)
      tt

read_opened_range_vec-content_example :
    (read_opened_range_vec reader opened 1 5 tt).0 ≡ ok (take 5 (drop 1 content))
read_opened_range_vec-content_example =
    read_opened_range_vec-content reader opened content reader-Reads (λ s. omega arith)
      (omega arith) 1 5 tt (omega arith)

-- A server that stores all of it, but only in memory until it is asked to commit.
abbrev write_answer : List Operation → Bytes → Result Error CompoundResponse × Bytes
write_answer (Operation.put_fh handle ∷ (Operation.write stateid offset _ bytes ∷ [])) file = (
  ok (
      write_reply [] none
        (record { count = length bytes; committed = StableHow.unstable; verifier = 5 ∷ [] })),
  splice file offset bytes,
)
write_answer (Operation.put_fh handle ∷ (Operation.commit offset count ∷ [])) file =
    (ok (commit_reply [] none (5 ∷ [])), file)
write_answer _ file = (err (protocol "not a write"), file)

abbrev writer : Compounds Bytes
writer = record { compound = write_answer; read_size = λ s. 2; write_size = λ s. 2 }

writer-Stores :
    (s : Bytes) (offset : ℕ) (bytes : Bytes)
    → 0 < length bytes
    → Stores writer opened
        (λ file. file)
        (5 ∷ [])
        s
        offset
        bytes
        (writer.compound (write_operations writer opened offset bytes) s)
writer-Stores s offset bytes h = record {
  tag = [];
  sequence = none;
  n = length bytes;
  committed = StableHow.unstable;
  answered = refl;
  within = omega arith;
  moves_on = h;
  stored = ap (splice s offset) (sym (take-all (length bytes) bytes (omega arith)));
}

writer-Commits :
    (s : Bytes) (offset count : ℕ)
    → Commits writer opened
        (λ file. file)
        (5 ∷ [])
        s
        (writer.compound (Operation.put_fh opened.handle ∷ Operation.commit offset count ∷ []) s)
writer-Commits s offset count = record { tag = []; sequence = none; answered = refl; kept = refl }

write_opened_at-stored_example :
    ((write_opened_at writer opened 1 (4 ∷ 5 ∷ 6 ∷ []) content).0 ≡ ok tt)
    × ((write_opened_at writer opened 1 (4 ∷ 5 ∷ 6 ∷ []) content).1
        ≡ splice content 1 (4 ∷ 5 ∷ 6 ∷ []))
write_opened_at-stored_example =
    write_opened_at-stored writer opened (λ file. file) (5 ∷ []) writer-Stores writer-Commits
      (λ s. omega arith) 1 (4 ∷ 5 ∷ 6 ∷ []) content (omega arith) (omega arith)
