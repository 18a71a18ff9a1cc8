-- ===== src/Generator/Write/Sent.antt =====
-- The streams of `write_csv` (src/generator.cpp): what has been sent to a stream that has not failed.
use route_engine_cpp.Shared.{
  ◌≡◌, sym, ap, ◌∙◌, false, ◌++◌, append_assoc, append-nil, [], arith, Option, none, some,
}
use route_engine_cpp.Fields.{Text}
use route_engine_cpp.Generator.Write.{Stream, emit, emit_or_fail, write_number}

-- If the later stream has not failed, then neither had the earlier one, and it has got this text since.
abbrev pub Sent : Text → Stream → Stream → Type 0
Sent text s s' = s'.failed ≡ false → (s.failed ≡ false) × (s'.written ≡ s.written ++ text)

pub nothing-Sent : (s : Stream) → Sent [] s s
nothing-Sent s h = (h, sym (append-nil s.written))

pub emit-Sent : (text : Text) (s : Stream) → Sent text s (emit text s)
emit-Sent text s = ground arith

pub then-Sent :
    (text text' : Text) (s s' s'' : Stream)
    → Sent text s s'
    → Sent text' s' s''
    → Sent (text ++ text') s s''
then-Sent text text' s s' s'' first second h =
    let (h', e') = second h in
    let (h₀, e) = first h' in
    (h₀, e' ∙ (ap (λ t. t ++ text') e ∙ append_assoc s.written text text'))

-- The text of a number; there is none where std::to_chars fails.
abbrev pub text_or_nil : Option Text → Text
text_or_nil none = []
text_or_nil (some text) = text

emit_or_fail-Sent :
    (text : Option Text) (s : Stream) → Sent (text_or_nil text) s (emit_or_fail text s)
emit_or_fail-Sent none s = ground arith
emit_or_fail-Sent (some text) s = emit-Sent text s

pub write_number-Sent :
    {W : Type 0} (to_chars : W → Option Text) (value : W) (s : Stream)
    → Sent (text_or_nil (to_chars value)) s (write_number to_chars value s)
unfolding write_number
write_number-Sent to_chars value s = emit_or_fail-Sent (to_chars value) s
