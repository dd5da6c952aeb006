-- ===== src/Net/TcpConnection/Kept.antt =====
-- net/tcp_connection.h: the bytes that a connection was given to send, and the fields that sending leaves
-- as they are.
use my_net_core_proxy.Prelude.{ℕ, ◌+◌, ◌≤◌, ◌≡◌, refl, ◌∙◌, List, [], ◌∷◌, ◌++◌, length, arith}
use my_net_core_proxy.Net.Buffer.{Buffer}
use my_net_core_proxy.Net.Buffer.Valid.{IsValid, contents}
use my_net_core_proxy.Net.TcpConnection.{TcpConnection, Hook, Written, wrote, refused, eagain}

-- The kernel takes no more bytes than it is offered.
abbrev pub Takes : (ℕ → List ℕ → Written) → Type 0
Takes write = (k : ℕ) (xs : List ℕ) (n : ℕ) → write k xs ≡ wrote n → n ≤ length xs

-- No first write of a message fails for good.
abbrev pub Open : (ℕ → List ℕ → Written) → Type 0
Open write = (xs : List ℕ) (errno : ℕ) → write 0 xs ≡ refused errno → errno ≡ eagain

-- The bytes that the kernel took, and behind them those that wait in the output buffer.
abbrev pub stream : {St : Type 0} → TcpConnection St → List ℕ
stream c = c.sent ++ contents c.output_buffer

pub length-zero : (xs : List ℕ) → length xs ≡ 0 → xs ≡ []
length-zero [] e = refl
length-zero (x ∷ xs) e = absurd (omega arith)

-- What sending leaves as it is.
pub record Kept {St : Type 0} (c c' : TcpConnection St) : Type 0 where
  pub same_state : c'.state ≡ c.state
  pub same_thread : c'.watch.loop.in_loop_thread ≡ c.watch.loop.in_loop_thread
  pub same_callbacks : c'.has ≡ c.has
  pub same_input : c'.input_buffer ≡ c.input_buffer

-- A connection whose bytes and marks have changed alone.
pub marks-Kept :
    {St : Type 0} (c : TcpConnection St) (output_buffer : Buffer) (calls : List Hook)
    (sent : List ℕ)
    → Kept c (record c { output_buffer = output_buffer; calls = calls; sent = sent })
marks-Kept c output_buffer calls sent = record {
  same_state = refl;
  same_thread = refl;
  same_callbacks = refl;
  same_input = refl;
}

pub Kept-trans : {St : Type 0} {a b c : TcpConnection St} → Kept a b → Kept b c → Kept a c
Kept-trans h k = record {
  same_state = k.same_state ∙ h.same_state;
  same_thread = k.same_thread ∙ h.same_thread;
  same_callbacks = k.same_callbacks ∙ h.same_callbacks;
  same_input = k.same_input ∙ h.same_input;
}

-- A valid output buffer whose end has moved by `n` at most, on a connection that is else as it was.
pub record Buffered {St : Type 0} (n : ℕ) (c c' : TcpConnection St) : Type 0 where
  pub valid : IsValid c'.output_buffer
  pub front : c'.output_buffer.writer_index ≤ c.output_buffer.writer_index + n
  pub kept : Kept c c'

pub Buffered-marks :
    {St : Type 0} {n : ℕ} (c : TcpConnection St) (calls : List Hook) (sent : List ℕ)
    {c' : TcpConnection St}
    → Buffered n (record c { calls = calls; sent = sent }) c'
    → Buffered n c c'
Buffered-marks c calls sent h = record {
  valid = h.valid;
  front = h.front;
  kept = Kept-trans (marks-Kept c c.output_buffer calls sent) h.kept;
}
