-- ===== src/Archive/Purchases/Access.antt =====
-- What a purchase gives.
