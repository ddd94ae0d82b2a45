-- ===== src/Fake/Filtering.antt =====
-- What a list of the fake client holds, and when a fake clientset can be made.
use kopilot.Base.{List}
