-- ===== src/Stdio/Tests.antt =====
-- A number printed in base 16.
use os_elephant.CString.{Memory}

abbrev blank : Memory
blank p = 0
