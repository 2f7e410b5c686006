-- ===== src/UserMaps/Tests.antt =====
-- Maps in user space as functions, and the configuration of the maps of a program that has all three.
