-- ===== src/External/Streams.antt =====
-- A duplex byte stream of tokio (`AsyncReadExt` and `AsyncWriteExt`) with every await under a timeout.
use nullpipe.Common.{ℕ, ◌≤◌, ◌<◌, ◌≡◌, ◌++◌, [], ◌⊎◌, take, drop, length, Result, ok, err}
use nullpipe.Std.Utf8.{Bytes}
use nullpipe.Types.{IoError}

-- `tokio::time::error::Elapsed`.
pub data Elapsed : Type 0 where
  elapsed : Elapsed

-- What `timeout(limit, operation).await` gives.
abbrev pub Timed : Type 0 → Type 0
Timed A = Result (Result A IoError) Elapsed

pub record Stream : Type 1 where
  pub State : Type 0
  pub read_exact : ℕ → State → Timed Bytes × State
  -- `read` into a buffer of this size; no bytes mean the end of the stream.
  pub read : ℕ → State → Timed Bytes × State
  pub write_all : Bytes → State → Timed (Unit {0}) × State
  pub flush : State → Timed (Unit {0}) × State

-- A stream whose peer has sent `unread` and then closed its side, and takes what is written to it.
-- `written` is what the stream has taken; what has not been flushed may still stand in its buffer. `Up` says that
-- nothing fails or stalls before the end of `unread`.
pub record StreamLaws (st : Stream) : Type 1 where
  pub unread : st.State → Bytes
  pub written : st.State → Bytes
  pub Up : st.State → Type 0
  pub read_whole :
      (n : ℕ) (s : st.State)
      → Up s
      → n ≤ length (unread s)
      → ((st.read_exact n s).0 ≡ ok (ok (take n (unread s))))
        × (unread (st.read_exact n s).1 ≡ drop n (unread s))
        × (written (st.read_exact n s).1 ≡ written s)
        × Up (st.read_exact n s).1
  pub read_end :
      (n : ℕ) (s : st.State)
      → Up s
      → length (unread s) < n
      → (e : IoError) × ((st.read_exact n s).0 ≡ ok (err e))
  pub read_some :
      (n : ℕ) (s : st.State)
      → Up s
      → 0 < n
      → (bs : Bytes) × ((st.read n s).0 ≡ ok (ok bs))
        × (unread s ≡ bs ++ unread (st.read n s).1)
        × (length bs ≤ n)
        × ((0 < length bs) ⊎ (unread s ≡ []))
        × (written (st.read n s).1 ≡ written s)
        × Up (st.read n s).1
  pub write :
      (bs : Bytes) (s : st.State)
      → Up s
      → ((st.write_all bs s).0 ≡ ok (ok tt))
        × (unread (st.write_all bs s).1 ≡ unread s)
        × (written (st.write_all bs s).1 ≡ written s ++ bs)
        × Up (st.write_all bs s).1
  pub flushed :
      (s : st.State)
      → Up s
      → ((st.flush s).0 ≡ ok (ok tt))
        × (unread (st.flush s).1 ≡ unread s)
        × (written (st.flush s).1 ≡ written s)
        × Up (st.flush s).1
