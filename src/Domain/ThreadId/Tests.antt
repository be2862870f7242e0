-- ===== src/Domain/ThreadId/Tests.antt =====
-- The public thread ids at concrete inputs.
use agent_console.Prelude.{str, ◌≡◌, refl, some, ◌∷◌, ◌++◌, arith}
use agent_console.Prelude.Result.{err}
use agent_console.Prelude.Text.Trim.{trim_space}
use agent_console.Prelude.Text.{split, ◌==◌}
use agent_console.Domain.Base64.{encode, decode}
use agent_console.Domain.ThreadId.{
  public_thread_id, decode_public_thread_id, resolve_runtime_thread, agent_mismatch,
  agent_id_required, decode_public_thread_id-public_thread_id,
  resolve_runtime_thread-public_thread_id,
}

encode_hello : encode (str "hello") ≡ str "aGVsbG8"
unfolding encode
encode_hello = refl

decode_newline : decode (str "aGV" ++ (10 ∷ str "sbG8")) ≡ some (str "hello")
unfolding decode
decode_newline = refl

public_id : public_thread_id (str "agent-01") (str "t1") ≡ str "th.YWdlbnQtMDE.dDE"
unfolding public_thread_id encode trim_space
public_id = refl

raw_id : resolve_runtime_thread (str " ") (str "t1") ≡ err agent_id_required
unfolding resolve_runtime_thread decode_public_thread_id decode split trim_space ◌==◌
raw_id = refl

decode_public_thread_id-public_thread_id_example :
    decode_public_thread_id (public_thread_id (str "agent-01") (str "t1"))
    ≡ some (str "agent-01", str "t1")
unfolding trim_space
decode_public_thread_id-public_thread_id_example =
    decode_public_thread_id-public_thread_id (str "agent-01") (str "t1") (omega arith) (omega arith)
      refl refl

resolve_runtime_thread-public_thread_id_example :
    resolve_runtime_thread (str "agent-02") (public_thread_id (str "agent-01") (str "t1"))
    ≡ err agent_mismatch
unfolding trim_space ◌==◌
resolve_runtime_thread-public_thread_id_example =
    resolve_runtime_thread-public_thread_id (str "agent-02") (str "agent-01") (str "t1")
      (omega arith) (omega arith) refl refl
