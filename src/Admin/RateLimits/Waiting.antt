-- ===== src/Admin/RateLimits/Waiting.antt =====
-- What a caller gains by waiting as long as it is told to.
