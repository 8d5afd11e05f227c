-- ===== src/Rpc/Stream.antt =====
-- The part of `std::net::TcpStream` that src/rpc.rs uses, seen from the client: the bytes that the
-- peer will still deliver, the bytes sent, and how many more the connection takes before a write
-- fails. A failed read has used up the bytes that came; a failed write has sent what fitted.
use nfs.Prelude.{ℕ, ◌-◌, List, [], ◌++◌, leb, if◌then◌else◌, length, take, drop}
use nfs.Prelude.Outcome.{ok, err}
use nfs.Prelude.Exec.{Exec}
use nfs.Error.{Error, IoErrorKind, io}

pub record Stream : Type 0 where
  pub incoming : List ℕ
  pub outgoing : List ℕ
  pub room : ℕ
  pub read_failure : IoErrorKind
  pub write_failure : IoErrorKind

unfoldable pub read_exact : ℕ → Exec Stream Error (List ℕ)
read_exact n s =
    if leb n (length s.incoming)
    then (ok (take n s.incoming), record s { incoming = drop n s.incoming })
    else (err (io s.read_failure), record s { incoming = [] })

unfoldable pub write_all : List ℕ → Exec Stream Error (Unit {0})
write_all bytes s =
    if leb (length bytes) s.room
    then (ok tt, record s { outgoing = s.outgoing ++ bytes; room = s.room - length bytes })
    else (
      err (io s.write_failure),
      record s { outgoing = s.outgoing ++ take s.room bytes; room = 0 },
    )
