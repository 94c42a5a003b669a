-- ===== src/Home/Texts.antt =====
-- Properties of a payload as the toasts write them.
use block_chain.Common.{String}
use block_chain.Js.{Engine, Value, Result, ◌>>=◌, get, to_text, slice_first?}

module _ (js : Engine) where
  -- `${v.key}`.
  unfoldable pub text_of : Value → String → Result String
  text_of v key = do x ← get js v key; to_text js x

  -- `${v.did_hash?.slice(0, 16)}`.
  unfoldable pub hash_start : Value → Result String
  hash_start v = do hash ← get js v "did_hash"; start ← slice_first? js hash 16; to_text js start
