-- ===== src/Mock.antt =====
-- sysconfig/mock/types.go: the records that answer commands in place of the services.
pub mod Matcher
pub mod Store
pub mod Intercept
use aliyun_cli.Base.{
  ℕ, zero, suc, ◌-◌, Text, leb, if◌then◌else◌, [], ◌∷◌, ◌++◌, length, take, ℤ, pos, negsuc,
}

pub record Record : Type 0 where
  pub name : Text
  pub cmd : Text
  pub exit_code : ℤ
  pub stdout : Text
  pub stderr : Text
  pub times : ℤ
  pub delay_ms : ℤ
  pub response_body_size : ℤ

abbrev pub max_delay_ms : ℕ
max_delay_ms = 3600000

abbrev pub max_response_body_size : ℕ
max_response_body_size = 104857600

abbrev pub response_body_pad_byte : ℕ
response_body_pad_byte = b'x'

-- The bytes that pad a body.
unfoldable pub padding : ℕ → Text
padding zero = []
padding (suc n) = response_body_pad_byte ∷ padding n

-- `ExpandToSize`, at a positive size
unfoldable pub expand_to_size : Text → ℕ → Text
expand_to_size content size =
    if leb size (length content)
    then take size content
    else content ++ padding (size - length content)

abbrev pub expand_to : Text → ℤ → Text
expand_to content (pos zero) = content
expand_to content (pos (suc n)) = expand_to_size content (suc n)
expand_to content (negsuc n) = content

-- `ResolveStdout`
unfoldable pub resolve_stdout : Record → Text
resolve_stdout record_ = expand_to record_.stdout record_.response_body_size
