-- ===== src/Remote/Diagnostics.antt =====
-- client.go: diagnosticBuffer, which keeps the end of what a spawned server has written.
use ghostline.Prelude.{ℕ, ◌+◌, ◌-◌, List, [], ◌∷◌, ◌++◌, Bytes, length, drop, leb, if◌then◌else◌}

abbrev pub max_daemon_diagnostics : ℕ
max_daemon_diagnostics = 65536

-- diagnosticBuffer.Write: the buffer that it leaves. `overflow` is zero where the code has a
-- negative number.
unfoldable pub write_diagnostics : Bytes → Bytes → Bytes
write_diagnostics buffer text =
    let overflow = length buffer + length text - max_daemon_diagnostics in
    if leb max_daemon_diagnostics (length text)
    then drop (length text - max_daemon_diagnostics) text
    else drop overflow buffer ++ text

-- Calls of Write one after another.
unfoldable pub write_all : Bytes → List Bytes → Bytes
unfolding write_diagnostics
write_all buffer [] = buffer
write_all buffer (text ∷ texts) = write_all (write_diagnostics buffer text) texts
